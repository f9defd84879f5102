-- ===== src/Start/Pieces.antt =====
-- What the parts of main return, for a configuration that says what main reads.
use beamlit_controller.Base.{
  Option, none, some, [], Text, bytes, Text_Eq, ℤ_Eq, lookup, wrap32, pos, false,
}
use beamlit_controller.Base.Triples.{Gives, Gives-pure, Gives-bind, Gives-then}
use beamlit_controller.Config.{
  Config, MetricInformersConfig, MetricInformerType, prometheus, kubernetes,
}
use beamlit_controller.Start.Factories.{
  new_metric_informer, new_k8s_metric_informer, new_prometheus_metric_informer, new_health_informer,
  new_k8s_health_informer,
}
use beamlit_controller.Start.Main.{
  service_address, informer_by_type, replaced_informer, metric_informer, proxy_service,
  admin_address, registered,
}
use beamlit_controller.Start.Options.{options, manager_options}
use beamlit_controller.Start.Plan.{
  Settings, Says, informer_of, HasAddress, HasAddressBy, informer_by, kubernetes_informer,
  prometheus_informer,
}
use beamlit_controller.Start.Platform.{
  Platform, RestConfig, discovery, resource_metrics, external_metrics, kube_clientset, scales,
  model_deployment, policy, tool_deployment,
}
use beamlit_controller.Start.Steps.{
  At, Stopped, Returns, returned, given_outside, answered_outside, given_read, given_config,
}

module _ {W R : Type 0} (p : Platform W R) where
  pub kubernetes_made :
      {Q : Type 0} (c : RestConfig R)
      → Returns (new_metric_informer {Q = Q} p c (pos 0)) kubernetes_informer
  unfolding new_metric_informer new_k8s_metric_informer lookup
  kubernetes_made c = Gives-then _ _ (returned (p.new_client discovery c)) (
      Gives-then _ _ (returned (p.new_client resource_metrics c)) (
        Gives-then _ _ (returned (p.new_client external_metrics c)) (
          Gives-then _ _ (returned (p.new_client kube_clientset c))
            (Gives-then _ _ (returned (p.new_client scales c)) (Gives-pure _)))))

  pub prometheus_made :
      {Q : Type 0} (c : RestConfig R)
      → Returns (new_metric_informer {Q = Q} p c (pos 1)) prometheus_informer
  unfolding new_metric_informer new_prometheus_metric_informer lookup
  prometheus_made c = Gives-then _ _ (returned (p.new_prometheus c.host)) (Gives-pure _)

  pub health_made :
      (c : RestConfig R)
      → Returns (new_health_informer p c (pos 0)) (record { watchers = []; is_closed = false })
  unfolding new_health_informer new_k8s_health_informer lookup
  health_made c = Gives-then _ _ (returned (p.new_client kube_clientset c)) (Gives-pure _)

  module _ {Q : Type 0} (c : Config) (v : Settings) (says : Says c v) where
    open says use {filled}

    pub options_read :
        Gives
          (At {W = W} {Q = Q} c v 0)
          manager_options
          (options v.http2 v.metrics_address v.secure_metrics v.probe_address v.leader_election
            v.namespaces)
          (At c v 0)
          (Stopped c v)
    unfolding manager_options
    options_read = Gives-bind _ _ (given_read c v 0 (λ k. k.enable_http2) _ filled.http2) (
        Gives-bind _ _ (given_read c v 0 (λ k. k.metrics_addr) _ filled.metrics) (
          Gives-bind _ _ (given_read c v 0 (λ k. k.secure_metrics) _ filled.secure) (
            Gives-bind _ _ (given_read c v 0 (λ k. k.probe_addr) _ filled.probe) (
              Gives-bind _ _ (given_read c v 0 (λ k. k.enable_leader_election) _ filled.elect) (
                Gives-bind _ _ (given_read c v 0 (λ k. k.namespaces) _ filled.names)
                  (Gives-pure _))))))

    pub all_registered : Gives (At {W = W} {Q = Q} c v 3) (registered p) tt (At c v 3) (Stopped c v)
    unfolding registered
    all_registered = Gives-then _ _ (answered_outside c v 3 (p.set_up model_deployment)) (
        Gives-then _ _ (answered_outside c v 3 (p.set_up policy)) (
          Gives-then _ _ (answered_outside c v 3 (p.set_up tool_deployment)) (
            Gives-then _ _ (answered_outside c v 3 (p.add_healthz_check (bytes "healthz")))
              (answered_outside c v 3 (p.add_readyz_check (bytes "readyz"))))))

    pub informer_chosen :
        (i : RestConfig R)
        → Gives
            (At {W = W} {Q = Q} c v 0)
            (metric_informer p i)
            (informer_of c.metric_informer_config)
            (At c v 0)
            (Stopped c v)
    unfolding metric_informer
    informer_chosen i = Gives-bind _ _ (given_outside c v 0 (kubernetes_made i)) (
        Gives-bind _ (λ m. replaced_informer p m kubernetes_informer)
          (given_config c v 0 (λ k. k.metric_informer_config))
          (chosen c.metric_informer_config filled.address))
      where
        by_its_type :
            (t : MetricInformerType) (a : Option Text)
            → HasAddressBy t a
            → Gives
                (At {W = W} {Q = Q} c v 0)
                (informer_by_type p t a kubernetes_informer)
                (informer_by t)
                (At c v 0)
                (Stopped c v)
        by_its_type prometheus a (u, e) = rw e (given_outside c v 0 (prometheus_made _))
        by_its_type kubernetes a h = Gives-pure _
        by_its_type (MetricInformerType.other t) a h = Gives-pure _

        chosen :
            (m : Option MetricInformersConfig)
            → HasAddress m
            → Gives
                (At {W = W} {Q = Q} c v 0)
                (replaced_informer p m kubernetes_informer)
                (informer_of m)
                (At c v 0)
                (Stopped c v)
        chosen none h = Gives-pure _
        chosen (some m) h = by_its_type m.type m.prometheus_address h

    pub service_read :
        Gives
          (At {W = W} {Q = Q} c v 2)
          proxy_service
          (record {
            kind = [];
            namespace = v.proxy_namespace;
            name = v.proxy_name;
            target_port = wrap32 v.port;
          })
          (At c v 2)
          (Stopped c v)
    unfolding proxy_service
    service_read =
        Gives-bind _ _ (given_read c v 2 (λ k. k.proxy_service.namespace) _ says.namespace) (
          Gives-bind _ _ (given_read c v 2 (λ k. k.proxy_service.name) _ says.name) (
            Gives-bind _ _ (given_read c v 2 (λ k. k.proxy_service.port) _ says.port)
              (Gives-pure _)))

    pub address_read :
        Gives
          (At {W = W} {Q = Q} c v 3)
          admin_address
          (service_address v.proxy_name v.proxy_namespace v.admin_port)
          (At c v 3)
          (Stopped c v)
    unfolding admin_address
    address_read = Gives-bind _ _ (given_read c v 3 (λ k. k.proxy_service.name) _ says.name) (
        Gives-bind _ _ (given_read c v 3 (λ k. k.proxy_service.namespace) _ says.namespace) (
          Gives-bind _ _ (given_read c v 3 (λ k. k.proxy_service.admin_port) _ says.admin_port)
            (Gives-pure _)))
