-- ===== src/Traffic/Calls.antt =====
-- The reports that change the offloading of a model, and the calls that each of them leads to.
use beamlit_controller.Base.{
  ℕ, Bool, true, false, some, Text, Text_Eq, lookup, insert, delete, ℤ, pos, int_eq, ◌∙◌, Act,
  Result, ok, panic, ◌≡◌, ◌≢◌, refl, arith, pure,
}
use beamlit_controller.Deployment.{
  ServiceReference, ModelDeployment, OffloadingConfig, OffloadingBehavior,
}
use beamlit_controller.Controller.State.{Reconciler, Deps, key}
use beamlit_controller.Controller.Callbacks.{
  is_down, percentage, offload_to, remote_backend, try_notify, notify_on_beamlit, on_failure,
  on_recovery, on_metric, health_check_callback, metric_callback,
}
use beamlit_controller.Controller.Watch.{Event, health_status, metric_status}

-- What a report says of a model.
pub data Cause : Type 0 where
  failed recovered reached relieved : Cause

abbrev pub event_of : Text → Cause → Event
event_of name failed = health_status name false
event_of name recovered = health_status name true
event_of name reached = metric_status name true
event_of name relieved = metric_status name false

-- The percentage of the requests that is to go to the remote backend, where `p` is configured.
abbrev pub share_of : ℕ → Cause → ℕ
share_of p failed = 100
share_of p recovered = p
share_of p reached = p
share_of p relieved = 0

abbrev pub told : Cause → Bool
told relieved = false
told _ = true

-- The offloading of the model under `k` is known, and is not `n`.
abbrev pub IsOtherThan : {W : Type 0} → ℕ → Text → Reconciler W → Type 0
IsOtherThan n k r = (v : ℤ) × (lookup k r.ongoing_offloadings ≡ some v) × (int_eq v (pos n) ≡ false)

-- The reconciler acts on the report: the model is not offloaded as far as the report asks for, and
-- it is not marked as down if it is a report on its metrics. `q` is the configured percentage.
abbrev pub IsDue : {W : Type 0} → ℤ → ℕ → Text → Reconciler W → Cause → Type 0
IsDue q p k r failed = Unit
IsDue q p k r recovered = (q ≡ pos p) × IsOtherThan p k r
IsDue q p k r reached = (q ≡ pos p) × (is_down (lookup k r.model_state) ≡ false) × IsOtherThan p k r
IsDue q p k r relieved = (is_down (lookup k r.model_state) ≡ false) × IsOtherThan 0 k r

module _ {W M B : Type 0} (d : Deps W M B) (m : ModelDeployment M) where
  abbrev pub callback : Cause → Act (Reconciler W) (Unit {0})
  callback failed = health_check_callback d m false
  callback recovered = health_check_callback d m true
  callback reached = metric_callback d m true
  callback relieved = metric_callback d m false

module _ {W M B : Type 0} (d : Deps W M B) (m : ModelDeployment M) (c : OffloadingConfig M)
    (y : OffloadingBehavior) (near : ServiceReference) (config : m.spec.offloading_config ≡ some c)
    (behavior : c.behavior ≡ some y) where
  -- Offloader.Configure after GetLocalBeamlitService, for the percentage `n`.
  abbrev pub offloads : ℕ → W → Result (Unit {0}) × W
  offloads n w =
      d.offload m near c.remote_backend (pos n) (d.get_local_service m.spec.service_ref w).1

  offload_to-calls :
      (n : ℕ) (weight : Act (Reconciler W) ℤ) (r : Reconciler W)
      → ((q : Reconciler W) → weight q ≡ (ok (pos n), q))
      → (d.get_local_service m.spec.service_ref r.world).0 ≡ ok near
      → (offloads n r.world).0 ≡ ok tt
      → offload_to d m weight r ≡ (ok tt, record r { world = (offloads n r.world).1 })
  unfolding offload_to remote_backend
  offload_to-calls n weight r is local offloaded = simp (local, config, is, offloaded)

  percentage_lem : (q : Reconciler W) → percentage m q ≡ (ok y.percentage, q)
  unfolding percentage
  percentage_lem q = rw (config, behavior) refl

  -- The reconciler tells Beamlit after the offloader is done, and that is the last that it does
  -- outside.
  abbrev pub Calls : Bool → ℕ → W → Result (Unit {0}) × Reconciler W → Type 0
  Calls b n w (result, r) =
      (result ≡ ok tt)
      × (r.world ≡ (d.notify_offloading m.spec.model m.spec.environment b (offloads n w).1).1)

  notified-Calls :
      (b : Bool) (r : Reconciler W)
      → (d.notify_offloading m.spec.model m.spec.environment b r.world).0 ≢ panic
      → try_notify d m b r ≡ (
        ok tt,
        record r { world = (d.notify_offloading m.spec.model m.spec.environment b r.world).1 },
      )
  unfolding try_notify notify_on_beamlit
  notified-Calls b r h = ground (arith, h)

  module _ (p : ℕ) (r : Reconciler W)
      (local : (d.get_local_service m.spec.service_ref r.world).0 ≡ ok near)
      (offloaded : (n : ℕ) → (offloads n r.world).0 ≡ ok tt)
      (notified : (b : Bool) (w : W)
        → (d.notify_offloading m.spec.model m.spec.environment b w).0 ≢ panic) where
    by_percentage : y.percentage ≡ pos p → (q : Reconciler W) → percentage m q ≡ (ok (pos p), q)
    by_percentage is q = percentage_lem q ∙ rw is refl

    pub callback-Calls :
        (x : Cause)
        → IsDue y.percentage p (key m) r x
        → Calls (told x) (share_of p x) r.world (callback d m x r)
    unfolding health_check_callback metric_callback on_failure on_recovery on_metric
    callback-Calls failed due =
        rw
          (
            offload_to-calls 100 (pure (pos 100)) r (λ q. refl) local (offloaded 100),
            notified-Calls true
                (record r {
                  ongoing_offloadings = insert (key m) (pos 100) r.ongoing_offloadings;
                  world = (offloads 100 r.world).1;
                })
                (notified true (offloads 100 r.world).1),
          )
          (refl, refl)
    callback-Calls recovered (is, (v, at, other)) =
        rw
          (
            at,
            by_percentage is r,
            other,
            offload_to-calls p (percentage m) r (by_percentage is) local (offloaded p),
            notified-Calls true
                (record r {
                  ongoing_offloadings = insert (key m) (pos p) r.ongoing_offloadings;
                  world = (offloads p r.world).1;
                })
                (notified true (offloads p r.world).1),
          )
          (refl, refl)
    callback-Calls reached (is, up, (v, at, other)) =
        rw
          (
            up,
            at,
            by_percentage is r,
            other,
            offload_to-calls p (percentage m) r (by_percentage is) local (offloaded p),
            notified-Calls true
                (record r {
                  ongoing_offloadings = insert (key m) (pos p) r.ongoing_offloadings;
                  world = (offloads p r.world).1;
                })
                (notified true (offloads p r.world).1),
          )
          (refl, refl)
    callback-Calls relieved (up, (v, at, other)) =
        let q = record r { ongoing_offloadings = delete (key m) r.ongoing_offloadings } in
        rw
          (
            up,
            at,
            other,
            offload_to-calls 0 (pure (pos 0)) q (λ _. refl) local (offloaded 0),
            notified-Calls false (record q { world = (offloads 0 r.world).1 })
                (notified false (offloads 0 r.world).1),
          )
          (refl, refl)
