-- ===== src/Teardown/Tests.antt =====
-- The theorem on a resource whose service names a port that is not there.
use beamlit_controller.Base.{
  ℕ, All, Text, true, some, none, [], ◌∷◌, bytes, text_eq, Text_Eq, lookup, pos, err, failure, ◌≡◌,
  refl,
}
use beamlit_controller.Configurer.Cluster.{NamespacedName_Eq}
use beamlit_controller.Configurer.Samples.{cluster, initial}
use beamlit_controller.Configurer.State.{Configurer}
use beamlit_controller.Configurer.Stuck.{IsHalfDone}
use beamlit_controller.Controller.Samples.{service, config_of, model_of, quiet_with}
use beamlit_controller.Controller.State.{Deps, Reconciler}
use beamlit_controller.Deployment.{ModelDeployment}
use beamlit_controller.Teardown.{IsLeaving, tries, with_configurer, deletion_never_ends}

abbrev taken : Configurer ℕ
taken = record initial {
  beamlit_services =
      (
        record { namespace = bytes "n"; name = bytes "s" },
        record { namespace = bytes "n"; name = bytes "s-beamlit" },
      )
      ∷ [];
}

abbrev leaving : ModelDeployment Text
leaving = model_of true (some (config_of (pos 50)))

abbrev deps : Deps (Configurer ℕ) Text Text
deps = quiet_with (λ c. c) leaving

leaving-IsLeaving : IsLeaving deps (bytes "n") (bytes "m") leaving service
leaving-IsLeaving = record {
  read = λ c. refl;
  deleting = refl;
  finalizer = refl;
  config = config_of (pos 50);
  has_config = refl;
  service = refl;
  metrics = λ k c. refl;
  metrics_only = λ k c h. h;
  health = λ k c. refl;
  health_only = λ k c h. h;
}

taken-IsHalfDone : IsHalfDone service taken
unfolding lookup text_eq bytes
taken-IsHalfDone = ((record { namespace = bytes "n"; name = bytes "s-beamlit" }, refl), refl)

abbrev reconciler : Reconciler (Configurer ℕ)
reconciler = record {
  ongoing_offloadings = [];
  model_state = [];
  managed_models = [];
  beamlit_models = [];
  default_remote_backend = none;
  world = taken;
}

deletion_never_ends_example :
    let x = tries (with_configurer deps cluster) (bytes "n") (bytes "m") 3 reconciler in
    All (λ y. y ≡ err (failure "stop channel not found")) x.0 × IsHalfDone service x.1.world
deletion_never_ends_example =
    deletion_never_ends deps cluster (bytes "n") (bytes "m") leaving service 3 reconciler
      leaving-IsLeaving taken-IsHalfDone
