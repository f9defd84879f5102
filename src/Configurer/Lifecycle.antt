-- ===== src/Configurer/Lifecycle.antt =====
-- A service from Configure to Unconfigure, between calls for other services.
mod Outcomes
mod Tests
use beamlit_controller.Base.{
  Option, none, some, All, List, [], Text_Eq, lookup, ok, err, failure, ◌≡◌, ◌≢◌, refl,
}
use beamlit_controller.Deployment.{ServiceReference}
use beamlit_controller.Configurer.Cluster.{NamespacedName, NamespacedName_Eq, Kube}
use beamlit_controller.Configurer.State.{Channel, Configurer, name_of, get_local_beamlit_service}
use beamlit_controller.Configurer.Slices.{configure}
use beamlit_controller.Configurer.Release.{unconfigure}
use beamlit_controller.Configurer.Watchers.{Call, calls}
use beamlit_controller.Configurer.Apart.{Notes, IsApart, calls-Notes}
use beamlit_controller.Configurer.Lifecycle.Outcomes.{configure-IsTaken, unconfigure-HasNone}

module _ {W : Type 0} (k : Kube W) (ref : ServiceReference) where
  -- What Configure and what Unconfigure leave, after other calls.
  abbrev pub kept : List Call → Configurer W → Configurer W
  kept cs c = calls k cs (configure k (some ref) c).1

  abbrev pub freed : List Call → Configurer W → Configurer W
  freed cs c = calls k cs (unconfigure k (some ref) c).1

  found :
      (n : NamespacedName) (s : Option (List Channel)) (c : Configurer W)
      → Notes (name_of ref) (some n) s c
      → (get_local_beamlit_service ref c).0
        ≡ ok (record {
          kind = [];
          namespace = n.namespace;
          name = n.name;
          target_port = ref.target_port;
        })
  unfolding get_local_beamlit_service
  found n s c h = rw (h.service) refl

  not_found :
      (s : Option (List Channel)) (c : Configurer W)
      → Notes (name_of ref) none s c
      → ((get_local_beamlit_service ref c).0
          ≡ err (failure "proxy service not found for model service"))
        × (unconfigure k (some ref) c ≡ (ok tt, c))
  unfolding get_local_beamlit_service unconfigure
  not_found s c h = (rw (h.service) refl, rw (h.service) refl)

  stoppable :
      (n : Option NamespacedName) (cs : List Channel) (c : Configurer W)
      → Notes (name_of ref) n (some cs) c
      → lookup (name_of ref) c.stop_chans ≢ none
  stoppable n cs c h = rw (h.stops) (λ e. cc)

  -- Where Configure succeeds for a service, and Unconfigure later on: in between, the local service
  -- of the service is found, with the target port of the reference, and there are stop channels, so
  -- that Unconfigure is not refused for the lack of them. From then on, the local service is not
  -- found, and another Unconfigure succeeds and does nothing. This holds over any calls for other
  -- services, whatever the cluster answers to them and however they end.
  pub service_lifecycle :
      (before after : List Call) (c : Configurer W)
      → All (IsApart (name_of ref)) before
      → All (IsApart (name_of ref)) after
      → (configure k (some ref) c).0 ≡ ok tt
      → (unconfigure k (some ref) (kept before c)).0 ≡ ok tt
      → ((n : NamespacedName) × ((get_local_beamlit_service ref (kept before c)).0
            ≡ ok (record {
              kind = [];
              namespace = n.namespace;
              name = n.name;
              target_port = ref.target_port;
            })))
        × (lookup (name_of ref) (kept before c).stop_chans ≢ none)
        × ((get_local_beamlit_service ref (freed after (kept before c))).0
            ≡ err (failure "proxy service not found for model service"))
        × (unconfigure k (some ref) (freed after (kept before c))
            ≡ (ok tt, freed after (kept before c)))
  service_lifecycle before after c apart_before apart_after configured_ok unconfigured_ok =
      let taken = (configure-IsTaken k ref).at c tt configured_ok in
      let still =
        calls-Notes k (name_of ref) (some (taken.local)) (some (taken.chans)) before
          (configure k (some ref) c).1 apart_before taken.notes in
      let gone = (unconfigure-HasNone k ref).at (kept before c) tt unconfigured_ok in
      let released = (unconfigure k (some ref) (kept before c)).1 in
      let still_gone =
        calls-Notes k (name_of ref) none (lookup (name_of ref) released.stop_chans) after released
          apart_after (record { service = gone.gone; stops = refl }) in
      let (answer, again) = not_found _ _ still_gone in
      ((taken.local, found _ _ _ still), stoppable _ _ _ still, answer, again)
