-- ===== src/Pipeline.antt =====
-- From an event of the cluster to the reconciler: what a health watcher sends reaches
-- WatchForInformerUpdates through the channel of the health informer.
use beamlit_controller.Base.{
  false, some, List, [], ◌∷◌, Text_Eq, pos, lookup, insert, ok, ◌≡◌, refl,
}
use beamlit_controller.Deployment.{ModelDeployment, OffloadingConfig, OffloadingBehavior}
use beamlit_controller.Controller.State.{ManagedModel, Reconciler, Deps, key}
use beamlit_controller.Controller.Callbacks.{or_default}
use beamlit_controller.Controller.Watch.{Event, health_status, watch}
use beamlit_controller.Controller.Recovery.{Serves, filled}
use beamlit_controller.Controller.Failover.{Responds, moved, failure_offloads}
use beamlit_controller.Health.{
  Workload, Object, Message, status, unsupported, HealthWatcher, handle_event, kind_of, workload_of,
  is_ready, target_reported,
}

-- The messages of the health channel, as the reconciler receives them; an error goes to another
-- channel.
unfoldable pub received : List Message → List Event
received [] = []
received (status h ∷ ms) = health_status h.model_name h.healthy ∷ received ms
received (unsupported m ∷ ms) = received ms

-- When the workload of a managed model changes and has no replica ready, or is a replica set of
-- which not all are, the reconciler offloads the model to 100 percent and marks it as down: it asks
-- the configurer for the local service, tells the offloader to send 100 percent to the remote
-- backend of the model, or else to the default one, and tells Beamlit; its maps note 100 and down,
-- and nothing else changes. It supposes that the resource is read, and that the components that
-- the reconciler calls answer, whether or not Beamlit accepts the notification.
pub unready_offloads :
    {W M B : Type 0} (d : Deps W M B) (m : ModelDeployment M) (c : OffloadingConfig M)
    (b : OffloadingBehavior) (v : ManagedModel) (r : Reconciler W) (w : HealthWatcher) (o : Object)
    (x : Workload) (responds : Responds d)
    → Serves d w.model m c b v
    → lookup w.model r.managed_models ≡ some v
    → workload_of o ≡ some x
    → w.watch_target.kind ≡ kind_of o
    → w.watch_target.namespace ≡ x.namespace
    → w.watch_target.name ≡ x.name
    → is_ready o ≡ false
    → watch d (received (handle_event w o)) r ≡ (
      ok tt,
      record r {
        ongoing_offloadings = insert (key m) (pos 100) r.ongoing_offloadings;
        model_state = insert (key m) false r.model_state;
        world =
            moved d responds
              (filled r m c)
              (or_default c.remote_backend r.default_remote_backend)
              (pos 100)
              r.world;
      },
    )
unfolding received watch
unready_offloads d m c b v r w o x responds serves managed is kind namespace name unready =
    let (offloaded, ignored) = failure_offloads d w.model m c b v r responds serves managed in
    rw (target_reported w o x is kind namespace name, unready, offloaded) refl
