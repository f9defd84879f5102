-- ===== src/Controller/Tests.antt =====
-- Components that answer at once, and the theorems at concrete models.
use beamlit_controller.Base.{
  ℕ, suc, Bool, true, false, none, some, List, [], ◌∷◌, Text, Text_Eq, bytes, text_eq, ℤ, pos, ok,
  ◌≡◌, refl, arith, lookup, insert,
}
use beamlit_controller.Deployment.{ModelDeployment}
use beamlit_controller.Controller.State.{ManagedModel, Reconciler, Deps, key, join_key}
use beamlit_controller.Controller.Samples.{service, config_of, model_of, managed_model, quiet_with}
use beamlit_controller.Controller.Callbacks.{is_down, with_default}
use beamlit_controller.Controller.Watch.{health_status, metric_status, watch, watch_step}
use beamlit_controller.Controller.Reconcile.{
  done, reconcile, create_or_update, reconcile_found, install, port_of, configure_offloading,
  tear_down, set_up,
}
use beamlit_controller.Controller.Run.{request, report, run}
use beamlit_controller.Controller.Sound.{IsValid, IsSound}
use beamlit_controller.Controller.Sound.Runs.{run-IsSound}
use beamlit_controller.Controller.Idempotence.{reconcile_again}
use beamlit_controller.Controller.Recovery.{Serves, full_offload_sticks, release_is_final}
use beamlit_controller.Controller.Failover.{Responds, failure_offloads, recovery_restores}
use beamlit_controller.Health.{Workload, deployment, HealthWatcher, handle_event}
use beamlit_controller.Pipeline.{received, unready_offloads}
use beamlit_controller.Controller.Forgetting.{
  IsForgotten, deletion_forgets, deletion_without_offloading,
}

-- The world counts the calls that change something.
abbrev quiet : ModelDeployment Text → Deps ℕ Text Text
quiet m = quiet_with suc m

-- The controller with one managed model, or with none.
abbrev state_of : List (Text × ℤ) → List (Text × Bool) → List (Text × ManagedModel) → Reconciler ℕ
state_of ongoing state managed = record {
  ongoing_offloadings = ongoing;
  model_state = state;
  managed_models = managed;
  beamlit_models = [];
  default_remote_backend = none;
  world = 0;
}

abbrev half : ModelDeployment Text
half = model_of false (some (config_of (pos 50)))

abbrev full : ModelDeployment Text
full = model_of false (some (config_of (pos 100)))

abbrev start : Reconciler ℕ
start = state_of [] [] []

abbrev path : Text
path = bytes "n/m"

abbrev offloaded : ℤ → Bool → Reconciler ℕ
offloaded p up = state_of ((path, p) ∷ []) ((path, up) ∷ []) ((path, managed_model) ∷ [])

serves :
    (p : ℤ)
    → Serves
        (quiet (model_of false (some (config_of p))))
        path
        (model_of false (some (config_of p)))
        (config_of p)
        (record { percentage = p })
        managed_model
serves p = record { read = λ w. refl; healthy = refl; config = refl; behavior = refl }

responds : (m : ModelDeployment Text) → Responds (quiet m)
responds m = record {
  local = λ s w. service;
  found = λ s w. refl;
  offloaded = λ n s o p w. refl;
  notified = λ model environment b w. ground arith;
}

half-IsValid : IsValid half
half-IsValid = record { in_range = λ c b p q. grind arith }

start-IsSound : IsSound start
unfolding lookup
start-IsSound = record { at_key = λ k p e. ground arith; at_model = λ k v e. ground arith }

run-IsSound_example :
    IsSound
      (run
        (quiet half)
        (request (bytes "n") (bytes "m")
          ∷ report (metric_status path true)
          ∷ report (health_status path false)
          ∷ [])
        start).1
run-IsSound_example =
    run-IsSound (quiet half) (λ namespace name w m e. ground (arith, half-IsValid))
      (request (bytes "n") (bytes "m")
        ∷ report (metric_status path true)
        ∷ report (health_status path false)
        ∷ [])
      start start-IsSound

abbrev installed : Reconciler ℕ
installed = (reconcile (quiet half) (bytes "n") (bytes "m") start).1

installs : reconcile (quiet half) (bytes "n") (bytes "m") start ≡ (ok done, installed)
unfolding reconcile reconcile_found create_or_update lookup install port_of configure_offloading
    tear_down set_up with_default
installs = refl

managed_at : (p : ℤ) (up : Bool) → lookup path (offloaded p up).managed_models ≡ some managed_model
unfolding lookup text_eq bytes
managed_at p up = refl

ongoing_at :
    (q p : ℤ) (up : Bool)
    → lookup (key (model_of false (some (config_of q)))) (offloaded p up).ongoing_offloadings
      ≡ some p
unfolding lookup key text_eq bytes join_key
ongoing_at q p up = refl

state_at :
    (q p : ℤ) (up : Bool)
    → lookup (key (model_of false (some (config_of q)))) (offloaded p up).model_state ≡ some up
unfolding lookup key text_eq bytes join_key
state_at q p up = refl

up_at : is_down (lookup (key half) (offloaded (pos 50) true).model_state) ≡ false
unfolding lookup key text_eq bytes join_key
up_at = refl

reconcile_again_example :
    reconcile (quiet half) (bytes "n") (bytes "m") installed ≡ (ok done, installed)
reconcile_again_example =
    reconcile_again (quiet half) half (bytes "n") (bytes "m") start installed (λ w. refl) refl refl
      installs

full_offload_sticks_example :
    watch
      (quiet full)
      (health_status path true ∷ metric_status path false ∷ [])
      (offloaded (pos 100) false)
    ≡ (ok tt, offloaded (pos 100) false)
full_offload_sticks_example =
    full_offload_sticks (quiet full) path full (config_of (pos 100))
      (record { percentage = pos 100 }) managed_model (offloaded (pos 100) false)
      (health_status path true ∷ metric_status path false ∷ []) (serves (pos 100))
      (managed_at (pos 100) false) (state_at (pos 100) (pos 100) false)
      (ongoing_at (pos 100) (pos 100) false) refl ((refl, refl), (refl, tt))

release_is_final_example :
    let s = (watch_step (quiet half) (metric_status path false) (offloaded (pos 50) true)).1 in
    (lookup (key half) s.ongoing_offloadings ≡ none)
    × (watch (quiet half) (metric_status path true ∷ []) s ≡ (ok tt, s))
release_is_final_example =
    release_is_final (quiet half) path half (config_of (pos 50)) (record { percentage = pos 50 })
      managed_model (offloaded (pos 50) true) (pos 50) (metric_status path true ∷ [])
      (serves (pos 50)) (managed_at (pos 50) true) up_at (ongoing_at (pos 50) (pos 50) true)
      (ground arith) (refl, tt)

-- The state of a model that was offloaded; the world counts the two calls that change something.
abbrev after_failure : Reconciler ℕ
after_failure = record (offloaded (pos 0) true) {
  ongoing_offloadings = insert (key half) (pos 100) ((path, pos 0) ∷ []);
  model_state = insert (key half) false ((path, true) ∷ []);
  world = 2;
}

failure_offloads_example :
    (watch_step (quiet half) (health_status path false) (offloaded (pos 0) true)
      ≡ (ok tt, after_failure))
    × ((reached : Bool)
        → watch_step (quiet half) (metric_status path reached) after_failure
          ≡ (ok tt, after_failure))
failure_offloads_example =
    failure_offloads (quiet half) path half (config_of (pos 50)) (record { percentage = pos 50 })
      managed_model (offloaded (pos 0) true) (responds half) (serves (pos 50))
      (managed_at (pos 0) true)

recovery_restores_example :
    watch
      (quiet half)
      (health_status path false ∷ health_status path true ∷ [])
      (offloaded (pos 0) true)
    ≡ (
      ok tt,
      record after_failure {
        ongoing_offloadings = insert (key half) (pos 50) after_failure.ongoing_offloadings;
        model_state = insert (key half) true after_failure.model_state;
        world = 4;
      },
    )
recovery_restores_example =
    recovery_restores (quiet half) path half (config_of (pos 50)) (record { percentage = pos 50 })
      managed_model (offloaded (pos 0) true) (responds half) (serves (pos 50))
      (managed_at (pos 0) true) (ground arith)

abbrev deleted : ModelDeployment Text
deleted = model_of true none

deletion_forgets_example :
    IsForgotten
      (key deleted)
      (join_key (bytes "prod") (bytes "llm"))
      (reconcile (quiet deleted) (bytes "n") (bytes "m") (offloaded (pos 50) true)).1
deletion_forgets_example =
    deletion_forgets (quiet deleted) deleted (bytes "n") (bytes "m") (offloaded (pos 50) true) 0
      refl refl refl

deletion_without_offloading_example :
    (reconcile (quiet deleted) (bytes "n") (bytes "m") (offloaded (pos 50) true)).1.world ≡ 1
deletion_without_offloading_example =
    deletion_without_offloading (quiet deleted) deleted (bytes "n") (bytes "m")
      (offloaded (pos 50) true) 0 refl refl refl refl

abbrev watcher : HealthWatcher
watcher = record {
  model = path;
  watch_target = record {
    kind = bytes "Deployment";
    namespace = bytes "n";
    name = bytes "d";
    api_version = bytes "apps/v1";
  };
}

abbrev crashed : Workload
crashed = record { namespace = bytes "n"; name = bytes "d"; replicas = pos 2; ready = pos 0 }

unready_offloads_example :
    watch
      (quiet half)
      (received (handle_event watcher (deployment crashed)))
      (offloaded (pos 0) true)
    ≡ (ok tt, after_failure)
unready_offloads_example =
    unready_offloads (quiet half) half (config_of (pos 50)) (record { percentage = pos 50 })
      managed_model (offloaded (pos 0) true) watcher (deployment crashed) crashed (responds half)
      (serves (pos 50)) (managed_at (pos 0) true) refl refl refl refl refl
