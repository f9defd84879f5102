-- ===== src/Controller/Samples.antt =====
-- A model with a service, and components that answer at once, for the tests.
use beamlit_controller.Base.{
  Bool, true, false, Option, none, some, [], ◌∷◌, Text, bytes, ℤ, pos, Act, ok,
}
use beamlit_controller.Deployment.{ServiceReference, OffloadingConfig, ModelDeployment}
use beamlit_controller.Controller.State.{ManagedModel, Deps}

abbrev pub service : ServiceReference
service = record {
  kind = bytes "Service";
  namespace = bytes "n";
  name = bytes "s";
  target_port = pos 80;
}

abbrev pub config_of : ℤ → OffloadingConfig Text
config_of p = record {
  remote_backend = none;
  metrics = bytes "cpu" ∷ [];
  behavior = some (record { percentage = p });
}

abbrev pub model_of : Bool → Option (OffloadingConfig Text) → ModelDeployment Text
model_of deleting config = record {
  namespace = bytes "n";
  name = bytes "m";
  generation = pos 1;
  deleting = deleting;
  finalizers = [];
  labels = [];
  spec = record {
    model = bytes "llm";
    enabled = true;
    model_source_ref = record {
      kind = bytes "Deployment";
      namespace = bytes "n";
      name = bytes "d";
      api_version = bytes "apps/v1";
    };
    service_ref = some service;
    metric_service_ref = none;
    environment = bytes "prod";
    policies = [];
    serverless_config = none;
    offloading_config = config;
  };
  status = record {
    offloading_status = false;
    serving_port = pos 0;
    metric_port = pos 0;
    workspace = [];
    created_at_on_beamlit = pos 0;
    updated_at_on_beamlit = pos 0;
  };
}

abbrev pub managed_model : ManagedModel
managed_model = record {
  namespace = bytes "n";
  name = bytes "m";
  healthy = true;
  last_generation = pos 1;
}

abbrev pub tick : {W : Type 0} → (W → W) → Act W (Unit {0})
tick step w = (ok tt, step w)

-- A cluster that holds the model `m`; a call that changes something moves the world by `step`.
abbrev pub quiet_with : {W : Type 0} → (W → W) → ModelDeployment Text → Deps W Text Text
quiet_with step m = record {
  get_model = λ namespace name w. (ok m, w);
  update_model = λ n. tick step;
  update_status = λ n. tick step;
  contains_finalizer = λ n. true;
  add_finalizer = λ n. n;
  remove_finalizer = λ n. n;
  retrieve_pod_port = λ s w. (ok s.target_port, w);
  convert = λ n w. (ok n.name, w);
  create_or_update = λ n w. (
    ok (
        some (record {
          workspace = some (bytes "w");
          created_at = some (bytes "1");
          updated_at = some (bytes "2");
        })),
    step w,
  );
  delete_deployment = λ model environment. tick step;
  notify_offloading = λ model environment b. tick step;
  parse_time = λ s. ok (pos 7);
  configure_service = λ s. tick step;
  unconfigure_service = λ s. tick step;
  get_local_service = λ s w. (ok service, w);
  offload = λ n s o p. tick step;
  cleanup = λ n. tick step;
  register_metrics = λ k ms o i w. tick step;
  unregister_metrics = λ k. tick step;
  register_health = λ k o. tick step;
  unregister_health = λ k. tick step;
}
