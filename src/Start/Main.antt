-- ===== src/Start/Main.antt =====
-- cmd/main.go: main. What it starts in goroutines, and the manager that it runs at last, are the
-- tasks of the process.
use beamlit_controller.Base.{
  Option, none, some, [], ◌++◌, Text, Text_Eq, bytes, ℤ, Act, pure, gets, deref, wrap32, ◌>>=◌,
  ◌>>◌,
}
use beamlit_controller.Beamlit.Login.{new_client}
use beamlit_controller.Config.{
  MetricInformerType, MetricInformersConfig, DefaultRemoteBackend, prometheus, kubernetes,
}
use beamlit_controller.Controller.State.{Reconciler}
use beamlit_controller.Deployment.{ServiceReference, RemoteBackend}
use beamlit_controller.Health.Informer.{HealthInformer}
use beamlit_controller.Offloader.Replace.{print_int}
use beamlit_controller.Start.Factories.{
  new_metric_informer, new_health_informer, new_configurer, new_offloader, k8s_metric_informer_type,
  prometheus_metric_informer_type, k8s_health_informer_type, kubernetes_configurer_type,
  beamlit_gateway_offloader_type,
}
use beamlit_controller.Start.Options.{load, manager_options, read}
use beamlit_controller.Start.Platform.{
  Platform, RestConfig, AnyMetricInformer, Parts, Boot, answer, result_of, outside, spawn,
  start_metric_informer, start_health_informer, start_configurer, watch_for_informer_updates,
  policy_update, run_manager, kube_clientset, model_deployment, policy, tool_deployment,
}

abbrev pub or_empty_text : Option Text → Text
or_empty_text none = []
or_empty_text (some t) = t

-- The default remote backend of the reconciler, if the configuration names a host.
abbrev pub default_backend : DefaultRemoteBackend → Option Text → Option RemoteBackend
default_backend d none = none
default_backend d (some h) = some (record {
  host = h;
  auth_config = d.auth_config;
  path_prefix = or_empty_text d.path_prefix;
  headers_to_add = d.headers_to_add;
  scheme = or_empty_text d.scheme;
})

-- fmt.Sprintf("%s.%s.svc.cluster.local:%d", name, namespace, port)
unfoldable pub service_address : Text → Text → ℤ → Text
service_address name namespace port =
    name ++ (bytes "." ++ (namespace ++ (bytes ".svc.cluster.local:" ++ print_int port)))

-- ctrl := &controller.ModelDeploymentReconciler{…}, with the default remote backend
unfoldable pub new_reconciler : {Q : Type 0} → DefaultRemoteBackend → Parts Q → Reconciler (Parts Q)
new_reconciler d parts = record {
  ongoing_offloadings = [];
  model_state = [];
  managed_models = [];
  beamlit_models = [];
  default_remote_backend = default_backend d d.host;
  world = parts;
}

module _ {W Q : Type 0} where
  -- The reference that the configurer is started with.
  unfoldable pub proxy_service : Act (Boot W Q) ServiceReference
  proxy_service = do
    namespace ← read (λ c. c.proxy_service.namespace)
    name ← read (λ c. c.proxy_service.name)
    port ← read (λ c. c.proxy_service.port)
    pure (record { kind = []; namespace = namespace; name = name; target_port = wrap32 port })

  unfoldable pub admin_address : Act (Boot W Q) Text
  admin_address = do
    name ← read (λ c. c.proxy_service.name)
    namespace ← read (λ c. c.proxy_service.namespace)
    port ← read (λ c. c.proxy_service.admin_port)
    pure (service_address name namespace port)

  -- From the configurer, which is started here, to the reconciler. The goroutine that starts it reads
  -- the settings of the proxy service itself.
  unfoldable pub dataplane :
      AnyMetricInformer Q → HealthInformer → Act (Boot W Q) (Reconciler (Parts Q))
  dataplane metrics health = do
    configurer ← outside (new_configurer kubernetes_configurer_type)
    service ← proxy_service
    spawn (start_configurer service)
    address ← admin_address
    offloader ← outside (new_offloader beamlit_gateway_offloader_type)
    d ← gets (λ b. b.config.default_remote_backend)
    pure (
        new_reconciler d (record {
          metric_informer = metrics;
          health_informer = health;
          configurer = configurer;
          offloader = offloader;
          gateway_address = address;
        }))

module _ {W R Q : Type 0} (p : Platform W R) where
  -- The informer of Prometheus replaces that of Kubernetes, if the configuration asks for it.
  abbrev pub informer_by_type :
      MetricInformerType → Option Text → AnyMetricInformer Q → Act (Boot W Q) (AnyMetricInformer Q)
  informer_by_type prometheus address i = do
    a ← deref address
    outside
        (new_metric_informer p (record { host = a; others = none }) prometheus_metric_informer_type)
  informer_by_type kubernetes address i = pure i
  informer_by_type (MetricInformerType.other t) address i = pure i

  abbrev pub replaced_informer :
      Option MetricInformersConfig → AnyMetricInformer Q → Act (Boot W Q) (AnyMetricInformer Q)
  replaced_informer none i = pure i
  replaced_informer (some m) i = informer_by_type m.type m.prometheus_address i

  unfoldable pub metric_informer : RestConfig R → Act (Boot W Q) (AnyMetricInformer Q)
  metric_informer c = do
    i ← outside (new_metric_informer p c k8s_metric_informer_type)
    m ← gets (λ b. b.config.metric_informer_config)
    replaced_informer m i

  -- From the metric informer to the reconciler.
  unfoldable pub components : RestConfig R → Act (Boot W Q) (Reconciler (Parts Q))
  components c = do
    metrics ← metric_informer c
    spawn start_metric_informer
    health ← outside (new_health_informer p c k8s_health_informer_type)
    spawn start_health_informer
    outside (answer (p.new_client kube_clientset c))
    outside (new_client (λ t. result_of (p.decode t)) (λ u k. answer (p.new_sdk u k)) p.environment)
    dataplane metrics health

  -- What the manager is given.
  unfoldable pub registered : Act (Boot W Q) (Unit {0})
  registered = do
    outside (answer (p.set_up model_deployment))
    outside (answer (p.set_up policy))
    outside (answer (p.set_up tool_deployment))
    outside (answer (p.add_healthz_check (bytes "healthz")))
    outside (answer (p.add_readyz_check (bytes "readyz")))

  -- Once the configuration is loaded.
  unfoldable pub run_all : Act (Boot W Q) (Unit {0})
  run_all = do
    options ← manager_options
    c ← outside (answer p.get_config)
    outside (answer (p.new_manager c options))
    reconciler ← components c
    registered
    spawn (watch_for_informer_updates reconciler)
    spawn policy_update
    spawn (run_manager options)
    outside (answer p.start_manager)
    outside (answer p.close_file)

  unfoldable pub main : Text → Act (Boot W Q) (Unit {0})
  main path = do load p path; run_all
