-- ===== src/Beamlit/Conversion.antt =====
-- internal/controller/helper: what the client is sent for the resources of the cluster.
use beamlit_controller.Base.{
  Bool, true, false, Option, none, some, List, [], ◌∷◌, map, Text, Text_Eq, bytes, Dict, insert, ℤ,
  ℤ_Eq, Act, Result, ok, err, failure, pure, raise, lift, ◌>>=◌, ◌==◌, ◌&&◌, if◌then◌else◌,
}
use beamlit_controller.Deployment.{
  ServiceReference, PolicyRefType, PolicyRef, other, remote_policy, local_policy, ServerlessConfig,
  ModelDeployment,
}
use beamlit_controller.Configurer.Cluster.{ServicePort, Service}
use beamlit_controller.Beamlit.Types.{Serverless, Model}

-- The client of the cluster, and mapstructure.
pub record Objects (W P T : Type 0) : Type 0 where
  pub get_deployment : Text → Text → Act W P
  pub get_stateful_set : Text → Text → Act W P
  pub get_daemon_set : Text → Text → Act W P
  pub get_replica_set : Text → Text → Act W P
  pub get_service : Text → Text → Act W Service
  pub as_map : P → Result T

abbrev pub with_offloading_enabled : Dict Text Text → Dict Text Text
with_offloading_enabled labels = insert (bytes "offloading-enabled") (bytes "true") labels

-- The labels one after another, in the order in which the map gives them.
unfoldable pub copy : Dict Text Text → Dict Text Text → Dict Text Text
copy [] labels = labels
copy ((k, v) ∷ rest) labels = copy rest (insert k v labels)

abbrev pub to_beamlit_labels : Bool → Dict Text Text → Dict Text Text
to_beamlit_labels offloading labels =
    let own = insert (bytes "managed-by") (bytes "beamlit-operator") (copy labels []) in
    if offloading then with_offloading_enabled own else own

-- A reference of another type leaves its place empty.
abbrev pub policy_name : PolicyRefType → PolicyRef → Text
policy_name remote_policy p = p.name
policy_name local_policy p = p.ref.name
policy_name (other t) p = []

abbrev pub to_beamlit_policies : List PolicyRef → List Text
to_beamlit_policies policies = map (λ p. policy_name p.ref_type p) policies

abbrev pub to_serverless : ServerlessConfig → Serverless
to_serverless c = record {
  min_num_replicas = c.min_num_replicas;
  max_num_replicas = c.max_num_replicas;
  metric = c.metric;
  target = c.target;
  scale_down_delay = c.scale_down_delay;
  scale_up_minimum = c.scale_up_minimum;
  stable_window = c.stable_window;
  last_pod_retention_period = c.last_pod_retention_period;
}

abbrev pub given : {A B : Type 0} → (A → B) → Option A → Option B
given f none = none
given f (some a) = some (f a)

abbrev pub is_given : {A : Type 0} → Option A → Bool
is_given none = false
is_given (some _) = true

-- The model without its pod template.
unfoldable pub to_model : {M T : Type 0} → ModelDeployment M → T → Model T
unfolding copy
to_model m template = record {
  metadata = some (record {
    name = some m.spec.model;
    environment = some m.spec.environment;
    labels =
        some (to_beamlit_labels (is_given m.spec.offloading_config && m.spec.enabled) m.labels);
    workspace = none;
  });
  spec = record {
    enabled = m.spec.enabled;
    serving_port = m.status.serving_port;
    metric_port = m.status.metric_port;
    policies = to_beamlit_policies m.spec.policies;
    serverless_config = given to_serverless m.spec.serverless_config;
    pod_template = some template;
  };
}

-- The first port of the service with the number.
unfoldable pub pod_port : ℤ → List ServicePort → Result ℤ
pod_port n [] = err (failure "port not found")
pod_port n (p ∷ ps) = let rest = pod_port n ps in if p.port == n then ok p.target_port else rest

module _ {W P T : Type 0} (k : Objects W P T) where
  unfoldable pub retrieve_pod_template : Text → Text → Text → Act W P
  retrieve_pod_template kind name namespace =
      if kind == bytes "Deployment"
      then k.get_deployment namespace name
      else if kind == bytes "StatefulSet"
      then k.get_stateful_set namespace name
      else if kind == bytes "DaemonSet"
      then k.get_daemon_set namespace name
      else if kind == bytes "ReplicaSet"
      then k.get_replica_set namespace name
      else raise (failure "unexpected object type")

  unfoldable pub retrieve_pod_port : ServiceReference → Act W ℤ
  unfolding pod_port
  retrieve_pod_port ref = do
    s ← k.get_service ref.namespace ref.name
    lift (pod_port ref.target_port s.ports)

  unfoldable pub to_beamlit_model_deployment : {M : Type 0} → ModelDeployment M → Act W (Model T)
  unfolding retrieve_pod_template to_model
  to_beamlit_model_deployment m = do
    let source = m.spec.model_source_ref
    template ← retrieve_pod_template source.kind source.name source.namespace
    as_map ← lift (k.as_map template)
    pure (to_model m as_map)
