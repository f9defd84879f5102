-- ===== src/Traffic/Tests.antt =====
-- The theorem on a model whose pods fail, with a gateway that stands for the whole world.
use beamlit_controller.Base.{
  ℕ, false, true, none, some, [], ◌∷◌, map, Text, Text_Eq, bytes, lookup, pos, ok, ◌≡◌, refl, arith,
  eq_refl, text_eq,
}
use beamlit_controller.Deployment.{RemoteBackend, OffloadingConfig, ModelDeployment}
use beamlit_controller.Controller.Callbacks.{is_down}
use beamlit_controller.Controller.State.{Deps, Reconciler, key}
use beamlit_controller.Controller.Recovery.{Serves}
use beamlit_controller.Controller.Watch.{health_status, metric_status, watch_step}
use beamlit_controller.Controller.Samples.{service, config_of, model_of, managed_model, quiet_with}
use beamlit_controller.Gateway.Proxy.{ProxyState, register_route, update_route, is_among}
use beamlit_controller.Gateway.Pick.{weighted_random_backend}
use beamlit_controller.Gateway.Handler.{weigh, total_weight}
use beamlit_controller.Offloader.{
  ClusterService, Management, Offloading, route_of, far_backend, hostnames_of,
}
use beamlit_controller.Traffic.Calls.{reached}
use beamlit_controller.Traffic.Shares.{report_moves_traffic}
use beamlit_controller.Traffic.Stored.{Reaches, Aside, wired}
use beamlit_controller.Traffic.Failure.{failure_moves_traffic}

abbrev cluster_service : ClusterService
cluster_service = record { name = bytes "s"; namespace = bytes "n"; cluster_ip = bytes "10.0.0.1" }

abbrev straight : Management ProxyState
straight = record {
  get_service = λ n s p. (ok cluster_service, p);
  register_route = λ r p. (ok tt, (register_route r p).1);
  update_route = λ r p. (ok tt, (update_route r p).1);
  delete_route = λ n p. (ok tt, p);
}

abbrev here : ProxyState → ProxyState
here p = p

abbrev straight-Reaches : Reaches straight here (λ n s. cluster_service)
straight-Reaches = record {
  read = λ n s w. refl;
  read_only = λ n s w. refl;
  registered = λ r w. refl;
  on_register = λ r w. refl;
  updated = λ r w. refl;
  on_update = λ r w. refl;
}

abbrev half : OffloadingConfig Text
half = config_of (pos 50)

abbrev model : ModelDeployment Text
model = model_of false (some half)

abbrev still : Deps (Offloading ProxyState) Text Text
still = quiet_with (λ o. o) model

still-Aside : Aside still here service
still-Aside = record {
  local = λ s o. refl;
  local_only = λ s o. refl;
  notified = λ n e b o h. cc;
  notified_only = λ n e b o. refl;
}

still-Serves : Serves still (key model) model half (record { percentage = pos 50 }) managed_model
still-Serves = record { read = λ w. refl; healthy = refl; config = refl; behavior = refl }

abbrev remote : RemoteBackend
remote = record {
  host = bytes "run.beamlit.dev";
  auth_config = none;
  path_prefix = bytes "/$model";
  headers_to_add = [];
  scheme = bytes "https";
}

abbrev managing : Reconciler (Offloading ProxyState)
managing = record {
  ongoing_offloadings = [];
  model_state = [];
  managed_models = (key model, managed_model) ∷ [];
  beamlit_models = [];
  default_remote_backend = some remote;
  world = record {
    managed_routes = [];
    workspace = bytes "w";
    world = record { routes = []; routes_per_host = []; backend_host_to_route = [] };
  };
}

managed : lookup (key model) managing.managed_models ≡ some managed_model
unfolding lookup
managed = rw (eq_refl (key model)) refl

host_is_named : is_among (bytes "s.n") (hostnames_of cluster_service) ≡ true
unfolding hostnames_of text_eq bytes
host_is_named = refl

failure_moves_traffic_example :
    let x = watch_step (wired still straight) (health_status (key model) false) managing in
    (x.0 ≡ ok tt)
    × (lookup (bytes "s.n") x.1.world.world.routes_per_host ≡ some (bytes "m"))
    × ((workspace : Text) × let route =
            route_of workspace model cluster_service service remote (pos 100) in
          let bs = map weigh route.backends in
          (lookup (bytes "m") x.1.world.world.routes ≡ some route)
          × (weighted_random_backend {W = ℕ} (λ n w. (ok (pos 7), w)) bs (total_weight bs) 0
              ≡ (ok (far_backend workspace model remote (pos 100)), 0)))
failure_moves_traffic_example =
    failure_moves_traffic still straight here (λ n s. cluster_service) service service model half
      (record { percentage = pos 50 }) managed_model (key model) remote (λ n w. (ok (pos 7), w)) 7 0
      0 (bytes "s.n") managing straight-Reaches still-Aside still-Serves managed refl refl
      host_is_named (omega arith) refl

-- The same model, known to be offloaded to none.
abbrev watching : Reconciler (Offloading ProxyState)
watching = record managing { ongoing_offloadings = (key model, pos 0) ∷ [] }

known : lookup (key model) watching.ongoing_offloadings ≡ some (pos 0)
unfolding lookup
known = rw (eq_refl (key model)) refl

up : is_down (lookup (key model) watching.model_state) ≡ false
unfolding lookup
up = refl

report_moves_traffic_example :
    let x = watch_step (wired still straight) (metric_status (key model) true) watching in
    (x.0 ≡ ok tt)
    × (lookup (bytes "s.n") x.1.world.world.routes_per_host ≡ some (bytes "m"))
    × ((workspace : Text) × let route =
            route_of workspace model cluster_service service remote (pos 50) in
          let bs = map weigh route.backends in
          (lookup (bytes "m") x.1.world.world.routes ≡ some route)
          × (weighted_random_backend {W = ℕ} (λ n w. (ok (pos 70), w)) bs (total_weight bs) 0
              ≡ (ok (far_backend workspace model remote (pos 50)), 0)))
report_moves_traffic_example =
    report_moves_traffic still straight here (λ n s. cluster_service) service service model half
      (record { percentage = pos 50 }) managed_model (key model) remote 50 reached
      (λ n w. (ok (pos 70), w)) 70 0 0 (bytes "s.n") watching straight-Reaches still-Aside
      still-Serves managed refl refl (omega arith) (refl, up, (pos 0, known, refl)) host_is_named
      (omega arith) refl
