-- ===== src/Start/Tests.antt =====
-- Tests of the start, on a platform whose calls count themselves.
use beamlit_controller.Base.{
  ℕ, suc, All, false, Option, none, some, [], ◌∷◌, Text, bytes, text_eq, pos, wrap32, Result, err,
  panic, failure, lookup, insert, length, ◌≡◌, refl, arith,
}
use beamlit_controller.Config.{
  Config, MetricInformersConfig, prometheus, default, from_file, validate, has_suffix,
}
use beamlit_controller.Controller.Run.{request, report}
use beamlit_controller.Controller.Samples.{model_of, config_of, quiet_with}
use beamlit_controller.Controller.Sound.{IsValid}
use beamlit_controller.Controller.State.{Deps}
use beamlit_controller.Controller.Watch.{health_status}
use beamlit_controller.Deployment.{ModelDeployment}
use beamlit_controller.Start.Loaded.{Fills}
use beamlit_controller.Start.Main.{
  service_address, main, run_all, components, metric_informer, admin_address, dataplane,
  new_reconciler, proxy_service, registered,
}
use beamlit_controller.Start.Factories.{
  new_metric_informer, new_k8s_metric_informer, new_prometheus_metric_informer, new_health_informer,
  new_k8s_health_informer, new_beamlit_gateway_offloader, new_configurer, new_kubernetes_configurer,
  new_offloader,
}
use beamlit_controller.Beamlit.Login.{configured, new_beamlit_token, new_client}
use beamlit_controller.Beamlit.Token.{retrieve_info_from_env, split, token_url}
use beamlit_controller.Offloader.Replace.{print_int}
use beamlit_controller.Start.Options.{
  namespaces_list, load, manager_options, add_namespaces, disable_http2, options,
}
use beamlit_controller.Start.Plan.{Settings}
use beamlit_controller.Start.Platform.{Platform, got, refused, Call, Parts, Boot, spawn}
use beamlit_controller.Start.Serving.{
  StaysSound, RefusesHttp2, started-StaysSound, started-RefusesHttp2,
}

abbrev counted : Call ℕ (Unit {0})
counted w = (got tt, suc w)

-- A file that names the proxy service, and asks for the informers of `m`.
abbrev file : Option MetricInformersConfig → Text → Call Config (Unit {0})
file m t c = (
  got tt,
  record c {
    metric_informer_config = m;
    proxy_service = record {
      namespace = some (bytes "n");
      name = some (bytes "p");
      port = some (pos 8080);
      admin_port = some (pos 8081);
    };
  },
)

-- `start` is how the manager ends.
abbrev platform : Option MetricInformersConfig → Call ℕ (Unit {0}) → Platform ℕ ℕ
platform m start = record {
  open_file = λ path w. (got path, suc w);
  close_file = counted;
  from_yaml = file m;
  from_json = file m;
  get_config = λ w. (got (record { host = []; others = some 1 }), suc w);
  new_manager = λ c o. counted;
  new_client = λ k c. counted;
  new_prometheus = λ a. counted;
  environment = record { base_url = []; token = [] };
  decode = λ t. got t;
  new_sdk = λ u k. counted;
  set_up = λ n. counted;
  add_healthz_check = λ n. counted;
  add_readyz_check = λ n. counted;
  start_manager = start;
}

abbrev empty_config : Config
empty_config = record {
  metrics_addr = none;
  enable_leader_election = none;
  probe_addr = none;
  secure_metrics = none;
  enable_http2 = none;
  namespaces = none;
  metric_informer_config = none;
  proxy_service = record { namespace = none; name = none; port = none; admin_port = none };
  default_remote_backend = record {
    host = none;
    auth_config = none;
    path_prefix = none;
    headers_to_add = [];
    scheme = none;
  };
}

abbrev boot : Boot ℕ Text
boot = record { config = empty_config; tasks = []; world = 0 }

abbrev to_prometheus : Option Text → Option MetricInformersConfig
to_prometheus address = some (record { type = prometheus; prometheus_address = address })

abbrev settings : Settings
settings = record {
  http2 = false;
  metrics_address = bytes ":8080";
  secure_metrics = false;
  probe_address = bytes ":8081";
  leader_election = false;
  namespaces = bytes "default";
  proxy_namespace = [];
  proxy_name = [];
  port = pos 0;
  admin_port = pos 0;
}

file-Fills : Fills (file (to_prometheus (some (bytes "prom"))))
unfolding default
file-Fills t c e = (
  settings,
  record {
    http2 = refl;
    metrics = refl;
    secure = refl;
    probe = refl;
    elect = refl;
    names = refl;
    address = (bytes "prom", refl);
  },
)

abbrev good : Platform ℕ ℕ
good = platform (to_prometheus (some (bytes "prom"))) counted

abbrev half : ModelDeployment Text
half = model_of false (some (config_of (pos 50)))

abbrev deps : Deps (Parts Text) Text Text
deps = quiet_with (λ w. w) half

half-IsValid : IsValid half
half-IsValid = record { in_range = λ c b p q. grind arith }

started-StaysSound_example :
    All
      (StaysSound deps
        (request (bytes "n") (bytes "m") ∷ report (health_status (bytes "n/m") false) ∷ []))
      (main good (bytes "c.yaml") boot).1.tasks
started-StaysSound_example =
    started-StaysSound good (bytes "c.yaml") boot file-Fills file-Fills refl deps
      (request (bytes "n") (bytes "m") ∷ report (health_status (bytes "n/m") false) ∷ [])
      (λ namespace name w m e. ground (arith, half-IsValid))

-- main on `p`, to compute with.
boots : Platform ℕ ℕ → Result (Unit {0}) × Boot ℕ Text
unfolding main load from_file bytes text_eq validate run_all manager_options default components
    metric_informer new_metric_informer lookup insert new_k8s_metric_informer
    new_prometheus_metric_informer spawn new_health_informer new_k8s_health_informer wrap32
    configured new_beamlit_token new_client retrieve_info_from_env split token_url has_suffix
    print_int new_beamlit_gateway_offloader new_configurer new_kubernetes_configurer new_offloader
    admin_address dataplane new_reconciler proxy_service registered service_address add_namespaces
    disable_http2 namespaces_list options
boots p = main p (bytes "c.yaml") boot

http2_is_off : (main good (bytes "c.yaml") boot).1.config.enable_http2 ≡ some false
unfolding boots
http2_is_off = refl

started-RefusesHttp2_example :
    All
      (RefusesHttp2 (bytes "h2" ∷ bytes "http/1.1" ∷ []))
      (main good (bytes "c.yaml") boot).1.tasks
started-RefusesHttp2_example =
    started-RefusesHttp2 good (bytes "c.yaml") boot file-Fills file-Fills refl
      (bytes "h2" ∷ bytes "http/1.1" ∷ []) http2_is_off

-- A file that asks for the informer of Prometheus without its address passes the validation.
no_address_panics : (main (platform (to_prometheus none) counted) (bytes "c.yaml") boot).0 ≡ panic
unfolding boots
no_address_panics = refl

-- If the manager fails, what was started before it goes down with it.
manager_fails :
    (main (platform none (λ w. (refused (failure "no leader"), w))) (bytes "c.yaml") boot).0
    ≡ err (failure "no leader")
unfolding boots
manager_fails = refl

two_namespaces : namespaces_list (bytes "a,b,a") ≡ (bytes "a", tt) ∷ (bytes "b", tt) ∷ []
unfolding namespaces_list insert text_eq bytes
two_namespaces = refl

-- The tasks that run at the end.
six_tasks : length (main good (bytes "c.yaml") boot).1.tasks ≡ 6
unfolding boots
six_tasks = refl

admin : service_address (bytes "p") (bytes "n") (pos 8081) ≡ bytes "p.n.svc.cluster.local:8081"
unfolding service_address print_int bytes
admin = refl
