-- ===== src/Start/Platform.antt =====
-- cmd/main.go: what the process of the operator stands on, and the state of its start. A call of
-- what is not under this repository answers with a value or an error.
use beamlit_controller.Base.{
  Bool, Option, List, ◌++◌, Text, Dict, Act, Error, Result, ok, err, modify, ◌∷◌, [],
}
use beamlit_controller.Deployment.{ServiceReference}
use beamlit_controller.Config.{Config}
use beamlit_controller.Beamlit.Token.{Environment}
use beamlit_controller.Beamlit.Login.{ClientCredentials}
use beamlit_controller.Configurer.State.{Configurer}
use beamlit_controller.Controller.State.{Reconciler}
use beamlit_controller.Health.Informer.{HealthInformer}
use beamlit_controller.Metric.Registry.{MetricInformer, PrometheusInformer}
use beamlit_controller.Offloader.{Offloading}

pub data Reply (A : Type 0) : Type 0 where
  got : A → Reply A
  refused : Error → Reply A

abbrev pub result_of : {A : Type 0} → Reply A → Result A
result_of (got a) = ok a
result_of (refused e) = err e

abbrev pub Call : Type 0 → Type 0 → Type 0
Call W A = W → Reply A × W

abbrev pub answer : {W A : Type 0} → Call W A → Act W A
answer c w = (result_of (c w).0, (c w).1)

-- rest.Config: the address of the server, and the rest of it, which a literal leaves empty.
pub record RestConfig (R : Type 0) : Type 0 where
  pub host : Text
  pub others : Option R

-- The protocols that a tls.Config offers.
abbrev pub Protocols : Type 0
Protocols = List Text

-- ctrl.Options. `namespaces` are those that the cache is limited to, if it is.
pub record ManagerOptions : Type 0 where
  pub metrics_address : Text
  pub secure_serving : Bool
  pub metrics_tls : List (Protocols → Protocols)
  pub webhook_tls : List (Protocols → Protocols)
  pub probe_address : Text
  pub leader_election : Bool
  pub namespaces : Option (Dict Text (Unit {0}))

-- The clients that are built from a rest.Config, and the controllers that the manager is given.
pub data ClientKind : Type 0 where
  discovery resource_metrics external_metrics kube_clientset scales : ClientKind

pub data ControllerName : Type 0 where
  model_deployment policy tool_deployment : ControllerName

pub record Platform (W R : Type 0) : Type 0 where
  pub open_file : Text → Call W Text
  pub close_file : Call W (Unit {0})
  pub from_yaml : Text → Call Config (Unit {0})
  pub from_json : Text → Call Config (Unit {0})
  pub get_config : Call W (RestConfig R)
  pub new_manager : RestConfig R → ManagerOptions → Call W (Unit {0})
  pub new_client : ClientKind → RestConfig R → Call W (Unit {0})
  pub new_prometheus : Text → Call W (Unit {0})
  -- os.Getenv, base64.StdEncoding.DecodeString and the client of the SDK
  pub environment : Environment
  pub decode : Text → Reply Text
  pub new_sdk : Text → ClientCredentials → Call W (Unit {0})
  pub set_up : ControllerName → Call W (Unit {0})
  pub add_healthz_check : Text → Call W (Unit {0})
  pub add_readyz_check : Text → Call W (Unit {0})
  pub start_manager : Call W (Unit {0})

-- What stands behind the interface MetricInformer.
pub data AnyMetricInformer (Q : Type 0) : Type 0 where
  of_kubernetes : MetricInformer Q → AnyMetricInformer Q
  of_prometheus : PrometheusInformer Q → AnyMetricInformer Q

-- The components behind the reconciler. `gateway_address` is where the offloader sends the routes.
pub record Parts (Q : Type 0) : Type 0 where
  pub metric_informer : AnyMetricInformer Q
  pub health_informer : HealthInformer
  pub configurer : Configurer (Unit {0})
  pub offloader : Offloading (Unit {0})
  pub gateway_address : Text

-- What the process runs: goroutines, and the manager.
pub data Task (Q : Type 0) : Type 0 where
  start_metric_informer start_health_informer : Task Q
  start_configurer : ServiceReference → Task Q
  watch_for_informer_updates : Reconciler (Parts Q) → Task Q
  policy_update : Task Q
  run_manager : ManagerOptions → Task Q

-- The process, before it ends: `err` is os.Exit(1).
pub record Boot (W Q : Type 0) : Type 0 where
  pub config : Config
  pub tasks : List (Task Q)
  pub world : W

module _ {W Q : Type 0} where
  abbrev pub outside : {A : Type 0} → Act W A → Act (Boot W Q) A
  outside m b = ((m b.world).0, record b { world = (m b.world).1 })

  abbrev pub configuring : {A : Type 0} → Act Config A → Act (Boot W Q) A
  configuring m b = ((m b.config).0, record b { config = (m b.config).1 })

  -- go f()
  unfoldable pub spawn : Task Q → Act (Boot W Q) (Unit {0})
  spawn t = modify (λ b. record b { tasks = b.tasks ++ t ∷ [] })
