-- ===== src/Controller/Sound/Callbacks.antt =====
-- The callbacks and the event loop keep the invariant.
use beamlit_controller.Base.{
  Bool, true, false, Option, none, some, Text, ℤ, ◌≡◌, Act, Text_Eq, ok, ◌>>=◌,
}
use beamlit_controller.Base.Keeps.{Keeps, Keeps-bind_ok, Keeps-catch, Keeps-if}
use beamlit_controller.Deployment.{ModelDeployment}
use beamlit_controller.Controller.State.{ManagedModel, Reconciler, Deps, call}
use beamlit_controller.Controller.Callbacks.{
  percentage, with_default, remote_backend, notify_on_beamlit, try_notify, offload_to, on_failure,
  on_recovery, on_metric, metric_callback, health_check_callback,
}
use beamlit_controller.Controller.Watch.{
  Event, health_status, metric_status, on_health_status, on_metric_status, watch_step,
}
use beamlit_controller.Controller.Sound.{
  IsValid, IsSound, percentage-IsPercentage, percentage-IsSound, with_default-IsSound,
  with_default-IsValid, sound_rules, call-IsSound,
}

module _ {W M B : Type 0} (d : Deps W M B) where
  offload_to-IsSound :
      (m : ModelDeployment M) (a : Act (Reconciler W) ℤ)
      → Keeps IsSound a
      → Keeps IsSound (offload_to d m a)
  unfolding offload_to remote_backend
  offload_to-IsSound m a k = search sound_rules

  try_notify-IsSound : (m : ModelDeployment M) (b : Bool) → Keeps IsSound (try_notify d m b)
  unfolding try_notify notify_on_beamlit
  try_notify-IsSound m b = search sound_rules

  on_failure-IsSound : (m : ModelDeployment M) → Keeps IsSound (on_failure d m)
  unfolding on_failure
  on_failure-IsSound m = search (sound_rules, offload_to-IsSound, try_notify-IsSound) depth 10

  on_recovery-IsSound :
      (m : ModelDeployment M) (o : Option ℤ) → IsValid m → Keeps IsSound (on_recovery d m o)
  unfolding on_recovery
  on_recovery-IsSound m none v = search sound_rules
  on_recovery-IsSound m (some p) v = Keeps-bind_ok (percentage m) _ (percentage-IsSound m) λ s q e.
      let h = percentage-IsPercentage m s q v e in
      search (sound_rules, offload_to-IsSound, try_notify-IsSound, percentage-IsSound) depth 10

  on_metric-IsSound :
      (m : ModelDeployment M) (b : Bool) (o : Option ℤ)
      → IsValid m
      → Keeps IsSound (on_metric d m b o)
  unfolding on_metric
  on_metric-IsSound m b none v = search sound_rules
  on_metric-IsSound m false (some p) v =
      search (sound_rules, offload_to-IsSound, try_notify-IsSound) depth 10
  on_metric-IsSound m true (some p) v =
      Keeps-bind_ok (percentage m) _ (percentage-IsSound m) λ s q e.
        let h = percentage-IsPercentage m s q v e in
        search (sound_rules, offload_to-IsSound, try_notify-IsSound, percentage-IsSound) depth 10

  metric_callback-IsSound :
      (m : ModelDeployment M) (b : Bool) → IsValid m → Keeps IsSound (metric_callback d m b)
  unfolding metric_callback
  metric_callback-IsSound m b v = search (sound_rules, on_metric-IsSound)

  health_check_callback-IsSound :
      (m : ModelDeployment M) (b : Bool) → IsValid m → Keeps IsSound (health_check_callback d m b)
  unfolding health_check_callback
  health_check_callback-IsSound m false v = search on_failure-IsSound
  health_check_callback-IsSound m true v = search (sound_rules, on_recovery-IsSound)

  -- The schema is enforced of every resource that the cluster returns.
  module _
      (served : (namespace name : Text) (w : W) (m : ModelDeployment M)
        → (d.get_model namespace name w).0 ≡ ok m
        → IsValid m) where
    report-IsSound :
        (f : ModelDeployment M → Act (Reconciler W) (Unit {0})) (v : ManagedModel)
        → ((m : ModelDeployment M) → IsValid m → Keeps IsSound (f m))
        → Keeps IsSound
            (do found ← call (d.get_model v.namespace v.name); model ← with_default found; f model)
    report-IsSound f v kf = Keeps-bind_ok _ _ (call-IsSound _) λ s m e.
        Keeps-bind_ok _ _ (with_default-IsSound m)
          λ r n e'. kf n (with_default-IsValid m n r (served v.namespace v.name s.world m e) e')

    on_health_status-IsSound :
        (b : Bool) (o : Option ManagedModel) → Keeps IsSound (on_health_status d b o)
    unfolding on_health_status
    on_health_status-IsSound b none = search sound_rules
    on_health_status-IsSound b (some v) =
        Keeps-catch _ _
          (report-IsSound (λ m. health_check_callback d m b) v
            (λ m. health_check_callback-IsSound m b))
          λ _. search sound_rules

    on_metric_status-IsSound :
        (b : Bool) (o : Option ManagedModel) → Keeps IsSound (on_metric_status d b o)
    unfolding on_metric_status
    on_metric_status-IsSound b none = search sound_rules
    on_metric_status-IsSound b (some v) =
        Keeps-if v.healthy _ _
          (Keeps-catch _ _
            (report-IsSound (λ m. metric_callback d m b) v (λ m. metric_callback-IsSound m b))
            λ _. search sound_rules)
          (search sound_rules)

    pub watch_step-IsSound : (e : Event) → Keeps IsSound (watch_step d e)
    unfolding watch_step
    watch_step-IsSound (health_status name b) = search (sound_rules, on_health_status-IsSound)
    watch_step-IsSound (metric_status name b) = search (sound_rules, on_metric_status-IsSound)
