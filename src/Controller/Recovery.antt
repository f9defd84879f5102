-- ===== src/Controller/Recovery.antt =====
-- What the reports on one managed model can and cannot bring about.
use beamlit_controller.Base.{
  All, Bool, true, false, none, some, List, [], ◌∷◌, Text, Act, ok, ap, ◌∙◌, ℤ, pos, delete,
  lookup-delete_self, ◌≡◌, ◌≢◌, refl, arith, Text_Eq, lookup, pure, catch, int_eq_iff,
}
use beamlit_controller.Deployment.{ModelDeployment, OffloadingConfig, OffloadingBehavior}
use beamlit_controller.Controller.State.{ManagedModel, Reconciler, Deps, key}
use beamlit_controller.Controller.Callbacks.{
  or_default, is_down, percentage, with_default, offload_to, remote_backend, try_notify,
  notify_on_beamlit, on_metric, on_recovery, metric_callback, health_check_callback,
}
use beamlit_controller.Controller.Watch.{
  Event, health_status, metric_status, on_health_status, on_metric_status, watch_step, watch,
}

-- A report on `name` that says that it is healthy, or speaks of its metrics.
abbrev pub IsCalm : Text → Event → Type 0
IsCalm name (health_status n healthy) = (n ≡ name) × (healthy ≡ true)
IsCalm name (metric_status n reached) = n ≡ name

-- The model `m`, with the default remote backend filled in.
abbrev pub filled :
    {W M : Type 0} → Reconciler W → ModelDeployment M → OffloadingConfig M → ModelDeployment M
filled r m c = record m {
  spec = record m.spec {
    offloading_config =
        some (record c { remote_backend = or_default c.remote_backend r.default_remote_backend });
  };
}

-- A model of the cluster, managed under `name`, with an offloading configuration.
pub record Serves {W M B : Type 0} (d : Deps W M B) (name : Text) (m : ModelDeployment M)
    (c : OffloadingConfig M) (b : OffloadingBehavior) (v : ManagedModel) : Type 0 where
  pub read : (w : W) → d.get_model v.namespace v.name w ≡ (ok m, w)
  pub healthy : v.healthy ≡ true
  pub config : m.spec.offloading_config ≡ some c
  pub behavior : c.behavior ≡ some b

module _ {W M B : Type 0} (d : Deps W M B) (name : Text) (m : ModelDeployment M)
    (c : OffloadingConfig M) (b : OffloadingBehavior) (v : ManagedModel)
    (serves : Serves d name m c b v) (r : Reconciler W)
    (managed : lookup name r.managed_models ≡ some v) where
  pub step-health :
      (healthy : Bool)
      → watch_step d (health_status name healthy) r
        ≡ catch (health_check_callback d (filled r m c) healthy) (λ _. pure tt) r
  unfolding watch_step on_health_status with_default
  step-health healthy = rw (managed, serves.read r.world, serves.config)

  pub step-metric :
      (reached : Bool)
      → watch_step d (metric_status name reached) r
        ≡ catch (metric_callback d (filled r m c) reached) (λ _. pure tt) r
  unfolding watch_step on_metric_status with_default
  step-metric reached = rw (managed, serves.healthy, serves.read r.world, serves.config)

  module _ (down : lookup (key m) r.model_state ≡ some false)
      (offloaded : lookup (key m) r.ongoing_offloadings ≡ some (pos 100))
      (full : b.percentage ≡ pos 100) where
    stuck_step : (e : Event) → IsCalm name e → watch_step d e r ≡ (ok tt, r)
    unfolding metric_callback health_check_callback on_recovery percentage key
    stuck_step (health_status n healthy) h =
        rw (h.0, h.1, step-health true, offloaded, serves.behavior, full)
    stuck_step (metric_status n reached) h = rw (h, step-metric reached, down)

  module _ (released : lookup (key m) r.ongoing_offloadings ≡ none) where
    released_step : (e : Event) → IsCalm name e → watch_step d e r ≡ (ok tt, r)
    unfolding metric_callback health_check_callback on_recovery on_metric percentage key
    released_step (health_status n healthy) h = rw (h.0, h.1, step-health true, released)
    released_step (metric_status n reached) h =
        rw (h, step-metric reached) (ground (arith, released))

module _ {W M B : Type 0} (d : Deps W M B) where
  watch-fixed :
      (es : List Event) (P : Event → Type 0) (r : Reconciler W)
      → ((e : Event) → P e → watch_step d e r ≡ (ok tt, r))
      → All P es
      → watch d es r ≡ (ok tt, r)
  unfolding watch
  watch-fixed [] P r step h = refl
  watch-fixed (e ∷ es) P r step h = rw (step e h.0) (watch-fixed es P r step h.1)

  -- A managed model that was reported unhealthy, so that it is marked as down and offloaded to
  -- 100 percent, and whose configured percentage is 100, stays so: no reports on its metrics and
  -- no reports that it is healthy again, in any number and order, change anything.
  pub full_offload_sticks :
      (name : Text) (m : ModelDeployment M) (c : OffloadingConfig M) (b : OffloadingBehavior)
      (v : ManagedModel) (r : Reconciler W) (es : List Event)
      → Serves d name m c b v
      → lookup name r.managed_models ≡ some v
      → lookup (key m) r.model_state ≡ some false
      → lookup (key m) r.ongoing_offloadings ≡ some (pos 100)
      → b.percentage ≡ pos 100
      → All (IsCalm name) es
      → watch d es r ≡ (ok tt, r)
  full_offload_sticks name m c b v r es serves managed down offloaded full calm =
      watch-fixed es (IsCalm name) r
        (stuck_step d name m c b v serves r managed down offloaded full) calm

  -- What a metric report does to the maps when an offloaded model falls below its threshold.
  on_metric-release :
      (m : ModelDeployment M) (p : ℤ) (r : Reconciler W)
      → p ≢ pos 0
      → (on_metric d m false (some p) r).1 ≡ record r {
        ongoing_offloadings = delete (key m) r.ongoing_offloadings;
        world = (on_metric d m false (some p) r).1.world;
      }
  unfolding on_metric offload_to remote_backend try_notify notify_on_beamlit
  on_metric-release m p r h = ground (arith, int_eq_iff p (pos 0))

  caught :
      (x : Act (Reconciler W) (Unit {0})) (r : Reconciler W)
      → (catch x (λ _. pure tt) r).1 ≡ (x r).1
  caught x r = ground arith

  metric_callback-up :
      (m : ModelDeployment M) (reached : Bool) (p : ℤ) (r : Reconciler W)
      → is_down (lookup (key m) r.model_state) ≡ false
      → lookup (key m) r.ongoing_offloadings ≡ some p
      → metric_callback d m reached r ≡ on_metric d m reached (some p) r
  unfolding metric_callback
  metric_callback-up m reached p r up ongoing = rw (up, ongoing)

  -- The state after a report that the metrics of an offloaded model are no longer reached.
  watch_step-release :
      (name : Text) (m : ModelDeployment M) (c : OffloadingConfig M) (b : OffloadingBehavior)
      (v : ManagedModel) (r : Reconciler W) (p : ℤ)
      → Serves d name m c b v
      → lookup name r.managed_models ≡ some v
      → is_down (lookup (key m) r.model_state) ≡ false
      → lookup (key m) r.ongoing_offloadings ≡ some p
      → p ≢ pos 0
      → (watch_step d (metric_status name false) r).1 ≡ record r {
        ongoing_offloadings = delete (key m) r.ongoing_offloadings;
        world = (watch_step d (metric_status name false) r).1.world;
      }
  unfolding key
  watch_step-release name m c b v r p serves managed up ongoing nonzero =
      rw (step-metric d name m c b v serves r managed false) (
        rw (caught (metric_callback d (filled r m c) false) r) (
          rw (metric_callback-up (filled r m c) false p r up ongoing)
            (on_metric-release (filled r m c) p r nonzero)))

  -- When the metrics of a managed model that is offloaded to another percentage than 0, and is not
  -- marked as down, are no longer reached, the controller forgets the model among the ongoing
  -- offloadings, whether or not its calls of the configurer, the offloader and Beamlit succeed.
  -- From then on no reports on its metrics and no reports that it is healthy, in any number and
  -- order, change anything: the model is not offloaded again however often its metrics are
  -- reached. It supposes that the resource is read at each report, with an offloading
  -- configuration that does not change.
  pub release_is_final :
      (name : Text) (m : ModelDeployment M) (c : OffloadingConfig M) (b : OffloadingBehavior)
      (v : ManagedModel) (r : Reconciler W) (p : ℤ) (es : List Event)
      → Serves d name m c b v
      → lookup name r.managed_models ≡ some v
      → is_down (lookup (key m) r.model_state) ≡ false
      → lookup (key m) r.ongoing_offloadings ≡ some p
      → p ≢ pos 0
      → All (IsCalm name) es
      → let s = (watch_step d (metric_status name false) r).1 in
        (lookup (key m) s.ongoing_offloadings ≡ none) × (watch d es s ≡ (ok tt, s))
  release_is_final name m c b v r p es serves managed up ongoing nonzero calm =
      let s = (watch_step d (metric_status name false) r).1 in
      let e = watch_step-release name m c b v r p serves managed up ongoing nonzero in
      let gone : lookup (key m) s.ongoing_offloadings ≡ none =
        ap (λ (t : Reconciler W). lookup (key m) t.ongoing_offloadings) e
        ∙ lookup-delete_self (key m) r.ongoing_offloadings in
      let kept : lookup name s.managed_models ≡ some v =
        ap (λ (t : Reconciler W). lookup name t.managed_models) e ∙ managed in
      (gone, watch-fixed es (IsCalm name) s (released_step d name m c b v serves s kept gone) calm)
