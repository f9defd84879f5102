-- ===== src/Start/Factories.antt =====
-- The factories of internal/informers/metric/informer.go, internal/informers/health/informer.go,
-- internal/dataplane/configurer/configurer.go and internal/dataplane/offloader/offloader.go, and
-- the constructors that they hold.
use beamlit_controller.Base.{
  Option, none, some, [], ◌∷◌, Text, Text_Eq, bytes, lookup, ℤ, ℤ_Eq, pos, Act, Error, failure,
  false, pure, raise, ◌>>◌,
}
use beamlit_controller.Configurer.State.{Configurer}
use beamlit_controller.Health.Informer.{HealthInformer}
use beamlit_controller.Offloader.{Offloading}
use beamlit_controller.Start.Platform.{
  Platform, RestConfig, AnyMetricInformer, of_kubernetes, of_prometheus, answer, discovery,
  resource_metrics, external_metrics, kube_clientset, scales,
}

-- factory, ok := factories[kind]; if !ok { return nil, e }; return factory(...)
abbrev pub made : {W B : Type 0} → Error → Option (Act W B) → Act W B
made e none = raise e
made e (some m) = m

abbrev pub k8s_metric_informer_type : ℤ
k8s_metric_informer_type = pos 0

abbrev pub prometheus_metric_informer_type : ℤ
prometheus_metric_informer_type = pos 1

abbrev pub k8s_health_informer_type : ℤ
k8s_health_informer_type = pos 0

abbrev pub kubernetes_configurer_type : Text
kubernetes_configurer_type = bytes "kubernetes"

abbrev pub beamlit_gateway_offloader_type : Text
beamlit_gateway_offloader_type = bytes "beamlit-gateway"

module _ {W R Q : Type 0} (p : Platform W R) where
  -- The clients for custom metrics are built without an error.
  unfoldable pub new_k8s_metric_informer : RestConfig R → Act W (AnyMetricInformer Q)
  new_k8s_metric_informer c = do
    answer (p.new_client discovery c)
    answer (p.new_client resource_metrics c)
    answer (p.new_client external_metrics c)
    answer (p.new_client kube_clientset c)
    answer (p.new_client scales c)
    pure (of_kubernetes (record { watchers = []; is_closed = false }))

  unfoldable pub new_prometheus_metric_informer : RestConfig R → Act W (AnyMetricInformer Q)
  new_prometheus_metric_informer c = do
    answer (p.new_prometheus c.host)
    pure (
        of_prometheus
          (record { watchers = []; stop_chs = []; running = []; closed = []; next = 0 }))

  unfoldable pub new_metric_informer : RestConfig R → ℤ → Act W (AnyMetricInformer Q)
  new_metric_informer c kind = made (failure "unknown metric informer type") (
      lookup kind (
        (k8s_metric_informer_type, new_k8s_metric_informer c)
        ∷ (prometheus_metric_informer_type, new_prometheus_metric_informer c)
        ∷ []))

module _ {W R : Type 0} (p : Platform W R) where
  unfoldable pub new_k8s_health_informer : RestConfig R → Act W HealthInformer
  new_k8s_health_informer c = do
    answer (p.new_client kube_clientset c)
    pure (record { watchers = []; is_closed = false })

  unfoldable pub new_health_informer : RestConfig R → ℤ → Act W HealthInformer
  new_health_informer c kind =
      made (failure "unknown health informer type")
        (lookup kind ((k8s_health_informer_type, new_k8s_health_informer c) ∷ []))

module _ {W : Type 0} where
  unfoldable pub new_kubernetes_configurer : Act W (Configurer (Unit {0}))
  new_kubernetes_configurer = pure (record {
    gateway_service_ref = none;
    beamlit_services = [];
    initial_endpoints = [];
    stop_chans = [];
    world = tt;
  })

  unfoldable pub new_configurer : Text → Act W (Configurer (Unit {0}))
  new_configurer kind =
      made (failure "unknown configurer type")
        (lookup kind ((kubernetes_configurer_type, new_kubernetes_configurer) ∷ []))

  unfoldable pub new_beamlit_gateway_offloader : Act W (Offloading (Unit {0}))
  new_beamlit_gateway_offloader = pure (record { managed_routes = []; workspace = []; world = tt })

  unfoldable pub new_offloader : Text → Act W (Offloading (Unit {0}))
  new_offloader kind =
      made (failure "unsupported offloader type")
        (lookup kind ((beamlit_gateway_offloader_type, new_beamlit_gateway_offloader) ∷ []))
