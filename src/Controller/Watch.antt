-- ===== src/Controller/Watch.antt =====
-- WatchForInformerUpdates: the loop over the reports of the two informers. A report is one event,
-- and the loop handles them one after the other; an error of a callback is only logged.
use beamlit_controller.Base.{
  Bool, Option, none, some, List, [], ◌∷◌, Text, Act, pure, gets, catch, ◌>>=◌, ◌>>◌, Text_Eq,
  lookup, if◌then◌else◌,
}
use beamlit_controller.Controller.State.{ManagedModel, Reconciler, Deps, call}
use beamlit_controller.Controller.Callbacks.{with_default, metric_callback, health_check_callback}

pub data Event : Type 0 where
  health_status : Text → Bool → Event
  metric_status : Text → Bool → Event

module _ {W M B : Type 0} (d : Deps W M B) where
  unfoldable pub on_health_status : Bool → Option ManagedModel → Act (Reconciler W) (Unit {0})
  on_health_status healthy none = pure tt
  on_health_status healthy (some value) =
      catch
        (do
          found ← call (d.get_model value.namespace value.name)
          model ← with_default found
          health_check_callback d model healthy)
        (λ _. pure tt)

  unfoldable pub on_metric_status : Bool → Option ManagedModel → Act (Reconciler W) (Unit {0})
  on_metric_status reached none = pure tt
  on_metric_status reached (some value) =
      if value.healthy
      then catch
          (do
            found ← call (d.get_model value.namespace value.name)
            model ← with_default found
            metric_callback d model reached)
          (λ _. pure tt)
      else pure tt

  unfoldable pub watch_step : Event → Act (Reconciler W) (Unit {0})
  watch_step (health_status name healthy) = do
    managed ← gets (λ r. lookup name r.managed_models)
    on_health_status healthy managed
  watch_step (metric_status name reached) = do
    managed ← gets (λ r. lookup name r.managed_models)
    on_metric_status reached managed

  -- The loop, over the events that arrive until the context is done.
  unfoldable pub watch : List Event → Act (Reconciler W) (Unit {0})
  watch [] = pure tt
  watch (e ∷ es) = do watch_step e; watch es
