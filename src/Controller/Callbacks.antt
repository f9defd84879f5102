-- ===== src/Controller/Callbacks.antt =====
-- metricCallback, healthCheckCallback and notifyOnBeamlit: what the controller does when an
-- informer reports on a model.
use beamlit_controller.Base.{
  Bool, true, false, Option, none, some, Act, ℤ, pos, pure, gets, deref, catch, ◌>>=◌, ◌>>◌, ◌==◌,
  Text_Eq, ℤ_Eq, lookup, if◌then◌else◌,
}
use beamlit_controller.Deployment.{RemoteBackend, ModelDeployment}
use beamlit_controller.Controller.State.{
  Reconciler, Deps, key, call, store_ongoing, delete_ongoing, store_state,
}

abbrev pub or_default : Option RemoteBackend → Option RemoteBackend → Option RemoteBackend
or_default none fallback = fallback
or_default (some b) fallback = some b

module _ {W M : Type 0} where
  -- A remote backend that is not given is the default one.
  unfoldable pub with_default : ModelDeployment M → Act (Reconciler W) (ModelDeployment M)
  with_default m = do
    config ← deref m.spec.offloading_config
    fallback ← gets (λ r. r.default_remote_backend)
    let filled = record config { remote_backend = or_default config.remote_backend fallback }
    pure (record m { spec = record m.spec { offloading_config = some filled } })

module _ {W M : Type 0} where
  -- model.Spec.OffloadingConfig.Behavior.Percentage
  unfoldable pub percentage : ModelDeployment M → Act (Reconciler W) ℤ
  percentage m = do
    config ← deref m.spec.offloading_config
    behavior ← deref config.behavior
    pure behavior.percentage

  -- model.Spec.OffloadingConfig.RemoteBackend
  unfoldable pub remote_backend : ModelDeployment M → Act (Reconciler W) (Option RemoteBackend)
  remote_backend m = do config ← deref m.spec.offloading_config; pure config.remote_backend

-- Whether the model was marked as down.
abbrev pub is_down : Option Bool → Bool
is_down (some false) = true
is_down _ = false

module _ {W M B : Type 0} (d : Deps W M B) where
  unfoldable pub notify_on_beamlit : ModelDeployment M → Bool → Act (Reconciler W) (Unit {0})
  notify_on_beamlit m offloading =
      call (d.notify_offloading m.spec.model m.spec.environment offloading)

  -- An error of the notification is only logged.
  unfoldable pub try_notify : ModelDeployment M → Bool → Act (Reconciler W) (Unit {0})
  try_notify m offloading = catch (notify_on_beamlit m offloading) (λ _. pure tt)

  -- GetLocalBeamlitService, then Offloader.Configure with the weight of the remote backend.
  unfoldable pub offload_to :
      ModelDeployment M → Act (Reconciler W) ℤ → Act (Reconciler W) (Unit {0})
  offload_to m weight = do
    local ← call (d.get_local_service m.spec.service_ref)
    backend ← remote_backend m
    w ← weight
    call (d.offload m local backend w)

  -- `value` is what the map of ongoing offloadings holds for the model.
  unfoldable pub on_metric : ModelDeployment M → Bool → Option ℤ → Act (Reconciler W) (Unit {0})
  on_metric m reached none = pure tt
  on_metric m false (some value) =
      if value == pos 0
      then pure tt
      else do delete_ongoing (key m); offload_to m (pure (pos 0)); try_notify m false
  on_metric m true (some value) = do
    target ← percentage m
    if value == target
        then pure tt
        else do offload_to m (percentage m); store_ongoing (key m) target; try_notify m true

  unfoldable pub metric_callback : ModelDeployment M → Bool → Act (Reconciler W) (Unit {0})
  metric_callback m reached = do
    state ← gets (λ r. lookup (key m) r.model_state)
    if is_down state
        then pure tt
        else do value ← gets (λ r. lookup (key m) r.ongoing_offloadings); on_metric m reached value

  -- The model is healthy again, and `value` is what the map of ongoing offloadings holds for it.
  unfoldable pub on_recovery : ModelDeployment M → Option ℤ → Act (Reconciler W) (Unit {0})
  on_recovery m none = pure tt
  on_recovery m (some value) = do
    target ← percentage m
    if value == target then pure tt else do
      offload_to m (percentage m)
      store_ongoing (key m) target
      try_notify m true
      store_state (key m) true

  unfoldable pub on_failure : ModelDeployment M → Act (Reconciler W) (Unit {0})
  on_failure m = do
    offload_to m (pure (pos 100))
    store_ongoing (key m) (pos 100)
    try_notify m true
    store_state (key m) false

  unfoldable pub health_check_callback : ModelDeployment M → Bool → Act (Reconciler W) (Unit {0})
  health_check_callback m false = on_failure m
  health_check_callback m true = do
    value ← gets (λ r. lookup (key m) r.ongoing_offloadings)
    on_recovery m value
