-- ===== src/Configurer/Stuck.antt =====
-- A service that Configure has taken over in part: Unconfigure wants the stop channels, which
-- Configure makes last.
use beamlit_controller.Base.{
  All, Dict, none, some, List, [], ◌∷◌, Text_Eq, lookup, insert, lookup-insert_self, modify, pure,
  continue, ℤ_Eq, pos, Act, Result, ok, err, panic, failure, ◌≡◌, ◌≢◌, refl, ◌>>=◌, ◌>>◌,
}
use mathlib.Core.Path.{subst}
use beamlit_controller.Base.Keeps.{
  Keeps, Keeps-bind, Keeps-bind_ok, Keeps-raise, Ends, Ends-bind, Ends-bind_ok,
}
use beamlit_controller.Deployment.{ServiceReference}
use beamlit_controller.Configurer.Cluster.{NamespacedName, NamespacedName_Eq, Service, Kube}
use beamlit_controller.Configurer.State.{Configurer, name_of, kube, stop_watchers}
use beamlit_controller.Configurer.Gateway.{
  beamlit_service_of, create_beamlit_model_service, add_port_to_gateway_service,
}
use beamlit_controller.Configurer.Slices.{
  target_port_of, take_over_endpoints_slices, configure_service, configure,
}
use beamlit_controller.Configurer.Steps.{
  Keeps-add_port_to_gateway_service, Keeps-take_over_endpoints_slices,
}
use beamlit_controller.Configurer.Release.{unconfigure}

-- The local service is known, and no stop channel is.
abbrev pub IsHalfDone : {W : Type 0} → ServiceReference → Configurer W → Type 0
IsHalfDone ref c =
    ((n : NamespacedName) × (lookup (name_of ref) c.beamlit_services ≡ some n))
    × (lookup (name_of ref) c.stop_chans ≡ none)

module _ {W : Type 0} (k : Kube W) (ref : ServiceReference) where
  -- It returns an error, and does nothing.
  pub unconfigure_refuses :
      (c : Configurer W)
      → IsHalfDone ref c
      → unconfigure k (some ref) c ≡ (err (failure "stop channel not found"), c)
  unfolding unconfigure stop_watchers
  unconfigure_refuses c ((n, known), none_yet) = rw (known, none_yet)

module _ {W : Type 0} (k : Kube W) (ref : ServiceReference)
    (wrong : (m a : Service) (v w : W)
      → (k.get_service ref.namespace ref.name v).0 ≡ ok m
      → (k.apply_service (beamlit_service_of ref m) w).0 ≡ ok a
      → target_port_of ref.target_port a.ports ≡ pos 0) where
  half_aside :
      (c : Configurer W) (d : Dict NamespacedName (List NamespacedName)) (w : W)
      → IsHalfDone ref c
      → IsHalfDone ref (record c { initial_endpoints = d; world = w })
  half_aside c d w h = h

  Keeps-kube : {A : Type 0} (m : Act W A) → Keeps (IsHalfDone ref) (kube m)
  Keeps-kube m = record { at = λ c h. h }

  -- The local service is noted, and returned.
  abbrev noted : Service → Act (Configurer W) Service
  noted a = do
    modify (λ c. record c {
      beamlit_services =
          insert (name_of ref) (record { namespace = a.namespace; name = a.name })
            c.beamlit_services;
    })
    pure a

  noted-port :
      (r : Result Service) (c : Configurer W) (s : Service)
      → ((a : Service) → r ≡ ok a → target_port_of ref.target_port a.ports ≡ pos 0)
      → (continue r noted c).0 ≡ ok s
      → target_port_of ref.target_port s.ports ≡ pos 0
  noted-port (ok a) c s is h =
      let e : a ≡ s = cc in
      subst (λ x. target_port_of ref.target_port x.ports ≡ pos 0) e (is a refl)
  noted-port (err x) c s is h = cc
  noted-port panic c s is h = cc

  created-port :
      (c : Configurer W) (s : Service)
      → (create_beamlit_model_service k ref c).0 ≡ ok s
      → target_port_of ref.target_port s.ports ≡ pos 0
  unfolding create_beamlit_model_service
  created-port c s = read (k.get_service ref.namespace ref.name c.world).0 refl
    where
      read :
          (r : Result Service)
          → (k.get_service ref.namespace ref.name c.world).0 ≡ r
          → (continue r
              (λ m. kube (k.apply_service (beamlit_service_of ref m)) >>= noted)
              (record c { world = (k.get_service ref.namespace ref.name c.world).1 })).0
            ≡ ok s
          → target_port_of ref.target_port s.ports ≡ pos 0
      read (ok m) e h = noted-port _ _ s (λ a. wrong m a _ _ e) h
      read (err x) e h = cc
      read panic e h = cc

  Keeps-noted : (a : Service) → Keeps (IsHalfDone ref) (noted a)
  Keeps-noted a = record {
    at = λ c h. (
      (
        record { namespace = a.namespace; name = a.name },
        lookup-insert_self (name_of ref) _ c.beamlit_services,
      ),
      h.1,
    );
  }

  Keeps-create : Keeps (IsHalfDone ref) (create_beamlit_model_service k ref)
  unfolding create_beamlit_model_service
  Keeps-create =
      Keeps-bind _ _ (Keeps-kube (k.get_service ref.namespace ref.name))
        (λ m. Keeps-bind _ _ (Keeps-kube (k.apply_service (beamlit_service_of ref m))) Keeps-noted)

  Keeps-configure : Keeps (IsHalfDone ref) (configure_service k ref)
  unfolding configure_service
  Keeps-configure = Keeps-bind_ok (create_beamlit_model_service k ref) _ Keeps-create (λ c s e.
      Keeps-bind (add_port_to_gateway_service k ref) _
        (Keeps-add_port_to_gateway_service k half_aside ref)
        (λ _.
          Keeps-bind (take_over_endpoints_slices k ref) _
            (Keeps-take_over_endpoints_slices k half_aside ref)
            (λ _. rw (created-port c s e) (Keeps-raise _))))

  configure_fails : Ends (λ _. ⊥) (configure_service k ref)
  unfolding configure_service
  configure_fails = Ends-bind_ok (create_beamlit_model_service k ref) _ (λ c s e.
      Ends-bind (add_port_to_gateway_service k ref) _ (λ _.
        Ends-bind (take_over_endpoints_slices k ref) _
          (λ _. rw (created-port c s e) (record { at = λ c a h. cc }))))

-- A call for the service.
pub data Attempt : Type 0 where
  configuring unconfiguring : Attempt

module _ {W : Type 0} (k : Kube W) (ref : ServiceReference) where
  abbrev pub call_of : Attempt → Act (Configurer W) (Unit {0})
  call_of configuring = configure k (some ref)
  call_of unconfiguring = unconfigure k (some ref)

  -- What the calls return, one after another, and the state that they leave.
  unfoldable pub attempts : List Attempt → Configurer W → List (Result (Unit {0})) × Configurer W
  attempts [] c = ([], c)
  attempts (a ∷ more) c =
      let rest = attempts more (call_of a c).1 in ((call_of a c).0 ∷ rest.0, rest.1)

  -- Where the local service of `ref` has no port with the number of `ref`, or one without a number
  -- to send to, and Configure has made that service and no stop channel yet, `ref` is never
  -- released: over any calls of Configure and Unconfigure for it, whatever else the cluster answers,
  -- none succeeds, the local service stays known, and there is still no stop channel.
  pub never_released :
      (more : List Attempt) (c : Configurer W)
      → ((m a : Service) (v w : W)
          → (k.get_service ref.namespace ref.name v).0 ≡ ok m
          → (k.apply_service (beamlit_service_of ref m) w).0 ≡ ok a
          → target_port_of ref.target_port a.ports ≡ pos 0)
      → IsHalfDone ref c
      → All (λ r. r ≢ ok tt) (attempts more c).0 × IsHalfDone ref (attempts more c).1
  unfolding attempts configure
  never_released [] c wrong half = (tt, half)
  never_released (configuring ∷ more) c wrong half =
      let rest =
        never_released more (configure_service k ref c).1 wrong
          ((Keeps-configure k ref wrong).at c half) in
      (((configure_fails k ref wrong).at c tt, rest.0), rest.1)
  never_released (unconfiguring ∷ more) c wrong half =
      rw (unconfigure_refuses k ref c half)
        (let rest = never_released more c wrong half in (((λ h. cc), rest.0), rest.1))
