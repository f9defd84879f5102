-- ===== src/Start/Plan.antt =====
-- What the process of cmd/main.go is to run, as a list, by the settings of the configuration.
use beamlit_controller.Base.{Bool, false, Option, none, some, List, [], ◌∷◌, Text, ℤ, wrap32, ◌≡◌}
use beamlit_controller.Config.{
  Config, MetricInformerType, MetricInformersConfig, prometheus, kubernetes,
}
use beamlit_controller.Start.Main.{new_reconciler, service_address}
use beamlit_controller.Start.Options.{options}
use beamlit_controller.Start.Platform.{
  AnyMetricInformer, of_kubernetes, of_prometheus, Parts, Task, start_metric_informer,
  start_health_informer, start_configurer, watch_for_informer_updates, policy_update, run_manager,
}

-- The settings that main reads through pointers.
pub record Settings : Type 0 where
  pub http2 : Bool
  pub metrics_address : Text
  pub secure_metrics : Bool
  pub probe_address : Text
  pub leader_election : Bool
  pub namespaces : Text
  pub proxy_namespace : Text
  pub proxy_name : Text
  pub port : ℤ
  pub admin_port : ℤ

-- No metric informer, or one that is not that of Prometheus, or one with the address of a server.
abbrev pub HasAddressBy : MetricInformerType → Option Text → Type 0
HasAddressBy prometheus address = (a : Text) × (address ≡ some a)
HasAddressBy kubernetes address = Unit
HasAddressBy (MetricInformerType.other t) address = Unit

abbrev pub HasAddress : Option MetricInformersConfig → Type 0
HasAddress none = Unit
HasAddress (some m) = HasAddressBy m.type m.prometheus_address

-- The configuration gives the settings that have a default, and an address to the informer.
pub record IsFilled (c : Config) (v : Settings) : Type 0 where
  pub http2 : c.enable_http2 ≡ some v.http2
  pub metrics : c.metrics_addr ≡ some v.metrics_address
  pub secure : c.secure_metrics ≡ some v.secure_metrics
  pub probe : c.probe_addr ≡ some v.probe_address
  pub elect : c.enable_leader_election ≡ some v.leader_election
  pub names : c.namespaces ≡ some v.namespaces
  pub address : HasAddress c.metric_informer_config

-- And those of the proxy service, which have none.
pub record Says (c : Config) (v : Settings) : Type 0 where
  pub filled : IsFilled c v
  pub namespace : c.proxy_service.namespace ≡ some v.proxy_namespace
  pub name : c.proxy_service.name ≡ some v.proxy_name
  pub port : c.proxy_service.port ≡ some v.port
  pub admin_port : c.proxy_service.admin_port ≡ some v.admin_port

module _ {Q : Type 0} where
  abbrev pub kubernetes_informer : AnyMetricInformer Q
  kubernetes_informer = of_kubernetes (record { watchers = []; is_closed = false })

  abbrev pub prometheus_informer : AnyMetricInformer Q
  prometheus_informer =
      of_prometheus (record { watchers = []; stop_chs = []; running = []; closed = []; next = 0 })

  abbrev pub informer_by : MetricInformerType → AnyMetricInformer Q
  informer_by prometheus = prometheus_informer
  informer_by kubernetes = kubernetes_informer
  informer_by (MetricInformerType.other t) = kubernetes_informer

  abbrev pub informer_of : Option MetricInformersConfig → AnyMetricInformer Q
  informer_of none = kubernetes_informer
  informer_of (some m) = informer_by m.type

  -- The components of the operator before it handles anything.
  abbrev pub fresh_parts : Config → Settings → Parts Q
  fresh_parts c v = record {
    metric_informer = informer_of c.metric_informer_config;
    health_informer = record { watchers = []; is_closed = false };
    configurer = record {
      gateway_service_ref = none;
      beamlit_services = [];
      initial_endpoints = [];
      stop_chans = [];
      world = tt;
    };
    offloader = record { managed_routes = []; workspace = []; world = tt };
    gateway_address = service_address v.proxy_name v.proxy_namespace v.admin_port;
  }

  abbrev pub plan : Config → Settings → List (Task Q)
  plan c v =
      start_metric_informer
      ∷ start_health_informer
      ∷ start_configurer (record {
        kind = [];
        namespace = v.proxy_namespace;
        name = v.proxy_name;
        target_port = wrap32 v.port;
      })
      ∷ watch_for_informer_updates (new_reconciler c.default_remote_backend (fresh_parts c v))
      ∷ policy_update
      ∷ run_manager (
          options v.http2 v.metrics_address v.secure_metrics v.probe_address v.leader_election
            v.namespaces)
      ∷ []
