-- ===== src/Configurer/Tests.antt =====
-- The theorems on a service of a model in a small cluster, whose state is the time.
use beamlit_controller.Base.{
  ℕ, ◌+◌, ◌≤◌, not, some, [], ◌∷◌, Text, Text_Eq, bytes, text_eq, lookup, ℤ, ℤ_Eq, pos, All, Result,
  ok, err, failure, panic, insert, for_each, ◌≢◌, ◌==◌, ◌&&◌, ◌||◌, inl, ◌≡◌, refl,
}
use mathlib.Core.Path.{subst}
use beamlit_controller.Deployment.{ServiceReference}
use beamlit_controller.Configurer.Samples.{
  ref, gateway, http, metrics, service, gateway_service, cluster, initial,
}
use beamlit_controller.Configurer.Cluster.{Service, ServicePort}
use beamlit_controller.Configurer.State.{label}
use beamlit_controller.Configurer.Slices.{
  mirrored_ports, target_port_of, take_over, taken, take_over_endpoints_slices, configure_service,
  configure,
}
use beamlit_controller.Configurer.Gateway.{
  contains_text, find_port, has_port, fronted, with_port, without, beamlit_service_of,
  create_beamlit_model_service, add_port_to_gateway_service,
}
use beamlit_controller.Configurer.Release.{watch_endpoints_slice_to_be_updated}
use beamlit_controller.Configurer.Mirror.{remove_target}
use beamlit_controller.Configurer.MirrorLoop.{remove_target-mirrors}
use beamlit_controller.Configurer.Fronted.{fronted-serves}
use beamlit_controller.Configurer.Waiting.{watch_endpoints_slice_to_be_updated-takes}
use beamlit_controller.Configurer.Running.{AllRunning}
use beamlit_controller.Configurer.Stuck.{
  IsHalfDone, configuring, unconfiguring, attempts, never_released,
}
use beamlit_controller.Configurer.Watchers.{configured, unconfigured, calls, calls-AllRunning}

-- A slice that is not restored is waited for to the end.
waits_long : (watch_endpoints_slice_to_be_updated cluster ref initial).1.world ≡ 1000
unfolding watch_endpoints_slice_to_be_updated lookup text_eq bytes label
waits_long = refl

-- Two ports with the number at the end, and two before another port.
two_targets_panic : remove_target (pos 80) 2 0 2 (http ∷ http ∷ []) ≡ panic
unfolding remove_target
two_targets_panic = refl

one_target_stays :
    remove_target (pos 80) 3 0 3 (http ∷ http ∷ metrics ∷ []) ≡ ok (http ∷ metrics ∷ [])
unfolding remove_target
one_target_stays = refl

remove_target-mirrors_example :
    remove_target (pos 80) 2 0 2 (http ∷ metrics ∷ [])
    ≡ ok (mirrored_ports (pos 80) (http ∷ metrics ∷ []))
remove_target-mirrors_example =
    remove_target-mirrors (pos 80) (http ∷ metrics ∷ []) ((λ _. (refl, tt)), ((λ _. tt), tt))

watch_endpoints_slice_to_be_updated-takes_example :
    (watch_endpoints_slice_to_be_updated cluster ref initial).1.world ≤ 0 + 1000
watch_endpoints_slice_to_be_updated-takes_example =
    watch_endpoints_slice_to_be_updated-takes cluster (λ w. w) (λ n e w. refl) (λ n w. refl) ref
      initial

calls-AllRunning_example :
    AllRunning (calls cluster (configured (some ref) ∷ unconfigured (some ref) ∷ []) initial)
unfolding lookup
calls-AllRunning_example =
    calls-AllRunning cluster (configured (some ref) ∷ unconfigured (some ref) ∷ []) initial
      (λ n. tt)

abbrev tcp : ServicePort
tcp = record { name = []; port = pos 80; protocol = bytes "TCP"; target_port = pos 80 }

fronted-serves_example :
    ((x : Text)
      → contains_text (fronted gateway ref gateway_service service).external_ips x ≡ (
          contains_text (bytes "10.0.0.1" ∷ []) x && not (contains_text (bytes "10.0.0.2" ∷ []) x)))
    × ((n : ℤ) (q : Text)
        → has_port n q (fronted gateway ref gateway_service service).ports
          ≡ (has_port n q [] || pos 80 == n && bytes "TCP" == q))
fronted-serves_example =
    fronted-serves gateway ref gateway_service service (bytes "TCP")
      (inl ([], [], tcp, refl, tt, refl, refl))

-- Configure on the cluster, to compute with.
tried : ServiceReference → Result (Unit {0})
unfolding configure configure_service create_beamlit_model_service add_port_to_gateway_service
    take_over_endpoints_slices take_over beamlit_service_of fronted lookup insert text_eq bytes
    label target_port_of find_port has_port with_port without taken for_each
tried s = (configure cluster (some s) initial).0

-- A resource that names a port that its service does not have.
abbrev misnamed : ServiceReference
misnamed = record ref { target_port = pos 81 }

configure_fails_late :
    (configure cluster (some misnamed) initial).0
    ≡ err (failure "target port not found in beamlit service")
unfolding tried
configure_fails_late = refl

half_done : IsHalfDone misnamed (configure cluster (some misnamed) initial).1
unfolding tried
half_done = ((record { namespace = bytes "n"; name = bytes "s-beamlit" }, refl), refl)

misnamed_port :
    (m a : Service) (v w : ℕ)
    → (cluster.get_service (bytes "n") (bytes "s") v).0 ≡ ok m
    → (cluster.apply_service (beamlit_service_of misnamed m) w).0 ≡ ok a
    → target_port_of (pos 81) a.ports ≡ pos 0
unfolding tried
misnamed_port m a v w e h =
    let same : service ≡ m = cc in
    let applied : beamlit_service_of misnamed m ≡ a = cc in
    subst (λ x. target_port_of (pos 81) x.ports ≡ pos 0) applied
      (subst (λ x. target_port_of (pos 81) x.ports ≡ pos 0) same refl)

never_released_example :
    let c = (configure cluster (some misnamed) initial).1 in
    let x = attempts cluster misnamed (unconfiguring ∷ configuring ∷ unconfiguring ∷ []) c in
    All (λ r. r ≢ ok tt) x.0 × IsHalfDone misnamed x.1
never_released_example =
    never_released cluster misnamed (unconfiguring ∷ configuring ∷ unconfiguring ∷ [])
      (configure cluster (some misnamed) initial).1 misnamed_port half_done
