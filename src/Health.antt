-- ===== src/Health.antt =====
-- internal/informers/health: kubernetes_watcher.go, what a watcher reports of a workload, and
-- kubernetes_informer.go, the watchers by their models.
pub mod Informer
mod Tests
use beamlit_controller.Base.{
  text_eq, Bool, true, false, ◌&&◌, ◌||◌, Option, none, some, List, [], ◌∷◌, Text, Text_Eq, bytes,
  Dict, lookup, insert, delete, lookup-insert, lookup-insert_self, lookup-delete,
  lookup-delete_self, ℤ, ℤ_Eq, pos, ltb_ℤ, Act, Result, ok, panic, pure, crash, gets, modify, ◌>>=◌,
  ◌>>◌, ◌==◌, ◌≡◌, refl, arith, text_eq_iff, if◌then◌else◌,
}
use beamlit_controller.Deployment.{ObjectReference}

-- A workload of the cluster, as far as it is read: `ready` is ReadyReplicas or NumberReady.
pub record Workload : Type 0 where
  pub namespace : Text
  pub name : Text
  pub replicas : ℤ
  pub ready : ℤ

-- What the shared informer hands to an event handler.
pub data Object : Type 0 where
  deployment stateful_set daemon_set replica_set : Workload → Object
  unknown : Object

pub record HealthStatus : Type 0 where
  pub model_name : Text
  pub healthy : Bool

-- What is sent to the two channels of the informer.
pub data Message : Type 0 where
  status : HealthStatus → Message
  unsupported : Text → Message

pub record HealthWatcher : Type 0 where
  pub model : Text
  pub watch_target : ObjectReference

abbrev pub as_deployment : Object → Option Workload
as_deployment (deployment d) = some d
as_deployment _ = none

abbrev pub as_stateful_set : Object → Option Workload
as_stateful_set (stateful_set d) = some d
as_stateful_set _ = none

abbrev pub as_daemon_set : Object → Option Workload
as_daemon_set (daemon_set d) = some d
as_daemon_set _ = none

abbrev pub as_replica_set : Object → Option Workload
as_replica_set (replica_set d) = some d
as_replica_set _ = none

abbrev pub has_ready : Workload → Bool
has_ready d = ltb_ℤ (pos 0) d.ready

abbrev pub all_ready : Workload → Bool
all_ready d = d.replicas == d.ready

-- One case of the switch: the type assertion, the comparison with the target, the report.
unfoldable pub report_on : HealthWatcher → (Workload → Bool) → Option Workload → List Message
report_on w is_healthy none = []
report_on w is_healthy (some d) =
    if d.namespace == w.watch_target.namespace && d.name == w.watch_target.name
    then status (record { model_name = w.model; healthy = is_healthy d }) ∷ []
    else []

unfoldable pub handle_event : HealthWatcher → Object → List Message
unfolding report_on
handle_event w o =
    if w.watch_target.kind == bytes "Deployment"
    then report_on w has_ready (as_deployment o)
    else if w.watch_target.kind == bytes "StatefulSet"
    then report_on w has_ready (as_stateful_set o)
    else if w.watch_target.kind == bytes "DaemonSet"
    then report_on w has_ready (as_daemon_set o)
    else if w.watch_target.kind == bytes "ReplicaSet"
    then report_on w all_ready (as_replica_set o)
    else unsupported w.model ∷ []

-- The kind that a reference names an object by.
abbrev pub kind_of : Object → Text
kind_of (deployment d) = bytes "Deployment"
kind_of (stateful_set d) = bytes "StatefulSet"
kind_of (daemon_set d) = bytes "DaemonSet"
kind_of (replica_set d) = bytes "ReplicaSet"
kind_of unknown = []

abbrev pub workload_of : Object → Option Workload
workload_of (deployment d) = some d
workload_of (stateful_set d) = some d
workload_of (daemon_set d) = some d
workload_of (replica_set d) = some d
workload_of unknown = none

abbrev pub is_ready : Object → Bool
is_ready (deployment d) = ltb_ℤ (pos 0) d.ready
is_ready (stateful_set d) = ltb_ℤ (pos 0) d.ready
is_ready (daemon_set d) = ltb_ℤ (pos 0) d.ready
is_ready (replica_set d) = d.replicas == d.ready
is_ready unknown = false

-- A watcher that is told of the object that it watches sends one status, under its model: healthy
-- means that a replica is ready, but for a replica set, where it means that as many are ready as
-- there are, also when there are none.
pub target_reported :
    (w : HealthWatcher) (o : Object) (d : Workload)
    → workload_of o ≡ some d
    → w.watch_target.kind ≡ kind_of o
    → w.watch_target.namespace ≡ d.namespace
    → w.watch_target.name ≡ d.name
    → handle_event w o ≡ status (record { model_name = w.model; healthy = is_ready o }) ∷ []
unfolding handle_event bytes text_eq
target_reported w (deployment e) d is kind namespace name =
    rw (kind, namespace, name)
      (ground (arith, is, text_eq_iff d.namespace d.namespace, text_eq_iff d.name d.name))
target_reported w (stateful_set e) d is kind namespace name =
    rw (kind, namespace, name)
      (ground (arith, is, text_eq_iff d.namespace d.namespace, text_eq_iff d.name d.name))
target_reported w (daemon_set e) d is kind namespace name =
    rw (kind, namespace, name)
      (ground (arith, is, text_eq_iff d.namespace d.namespace, text_eq_iff d.name d.name))
target_reported w (replica_set e) d is kind namespace name =
    rw (kind, namespace, name)
      (ground (arith, is, text_eq_iff d.namespace d.namespace, text_eq_iff d.name d.name))
target_reported w unknown d is kind namespace name = cc

-- A watcher in the map of the informer; `cancel` says that `start` has set the function.
pub record Entry : Type 0 where
  pub watcher : HealthWatcher
  pub cancel : Bool

abbrev pub Registry : Type 0
Registry = Dict Text Entry

-- watcher.cancel(), then the deletion; a function that is not set yet is nil.
abbrev pub cancel_entry : Text → Option Entry → Act Registry (Unit {0})
cancel_entry model none = pure tt
cancel_entry model (some e) = if e.cancel then modify (delete model) else crash

unfoldable pub remove_watcher : Text → Act Registry (Unit {0})
remove_watcher model = do entry ← gets (lookup model); cancel_entry model entry

unfoldable pub unregister : Text → Act Registry (Unit {0})
unregister model = do entry ← gets (lookup model); cancel_entry model entry

-- `start` runs in a goroutine of its own, which `started` stands for.
unfoldable pub register : Text → ObjectReference → Act Registry (Unit {0})
unfolding remove_watcher
register model resource = do
  remove_watcher model
  modify (
      insert model
        (record { watcher = record { model = model; watch_target = resource }; cancel = false }))

abbrev pub set_cancel : Text → Option Entry → Act Registry (Unit {0})
set_cancel model none = pure tt
set_cancel model (some e) = modify (insert model (record e { cancel = true }))

unfoldable pub started : Text → Act Registry (Unit {0})
started model = do entry ← gets (lookup model); set_cancel model entry

-- A model that had no watcher, and that is registered and then unregistered, has none afterwards,
-- and the other models keep theirs, if the goroutine of the watcher has started in between. If it
-- has not, the call of Unregister panics.
pub unregister_after_start :
    (model : Text) (resource : ObjectReference) (r : Registry)
    → lookup model r ≡ none
    → let x = (do register model resource; started model; unregister model) r in
      (x.0 ≡ ok tt)
      × ((n : Text) → lookup n x.1 ≡ lookup n r)
      × (((do register model resource; unregister model) r).0 ≡ panic)
unfolding register started unregister remove_watcher
unregister_after_start model resource r absent =
    let waiting : Entry = record {
      watcher = record { model = model; watch_target = resource };
      cancel = false;
    } in
    let running : Entry = record waiting { cancel = true } in
    rw absent (
      rw (lookup-insert_self model, lookup-insert_self model)
        (
          refl,
          λ n. ground (
            arith,
            absent,
            lookup-delete model n (insert model running (insert model waiting r)),
            lookup-insert model n running (insert model waiting r),
            lookup-insert model n waiting r,
            text_eq_iff model n,
          ),
          refl,
        ))
