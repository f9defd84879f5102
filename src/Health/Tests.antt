-- ===== src/Health/Tests.antt =====
-- The theorems at a replica set without replicas, and at an informer without watchers.
use beamlit_controller.Base.{
  true, [], ◌∷◌, Text, Text_Eq, bytes, lookup, pos, ok, panic, ◌≡◌, refl, ◌>>◌, none,
}
use beamlit_controller.Deployment.{ObjectReference}
use beamlit_controller.Health.{
  Workload, replica_set, status, HealthWatcher, handle_event, target_reported, Registry, register,
  started, unregister, unregister_after_start,
}

abbrev target : ObjectReference
target = record {
  kind = bytes "ReplicaSet";
  namespace = bytes "n";
  name = bytes "d";
  api_version = bytes "apps/v1";
}

abbrev watching : HealthWatcher
watching = record { model = bytes "n/m"; watch_target = target }

abbrev scaled_down : Workload
scaled_down = record { namespace = bytes "n"; name = bytes "d"; replicas = pos 0; ready = pos 0 }

target_reported_example :
    handle_event watching (replica_set scaled_down)
    ≡ status (record { model_name = bytes "n/m"; healthy = true }) ∷ []
target_reported_example =
    target_reported watching (replica_set scaled_down) scaled_down refl refl refl refl

abbrev no_watchers : Registry
no_watchers = []

none_found : lookup (bytes "n/m") no_watchers ≡ none
unfolding lookup
none_found = refl

unregister_after_start_example :
    let x =
      (do register (bytes "n/m") target; started (bytes "n/m"); unregister (bytes "n/m"))
        no_watchers in
    (x.0 ≡ ok tt)
    × ((n : Text) → lookup n x.1 ≡ lookup n no_watchers)
    × (((do register (bytes "n/m") target; unregister (bytes "n/m")) no_watchers).0 ≡ panic)
unregister_after_start_example = unregister_after_start (bytes "n/m") target no_watchers none_found
