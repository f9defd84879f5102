-- ===== src/Offloader/Tests.antt =====
-- The theorems on a model that is offloaded to 30 percent.
use beamlit_controller.Base.{
  ℕ, suc, ◌+◌, true, false, none, some, [], map, Text, bytes, insert, lookup, ltb, ℤ, pos, Act, ok,
  ◌≡◌, refl, arith, ◌>>◌, Text_Eq, if◌then◌else◌,
}
use beamlit_controller.Deployment.{ServiceReference, RemoteBackend, ModelDeployment}
use beamlit_controller.Gateway.Types.{Route}
use beamlit_controller.Gateway.Pick.{weighted_random_backend}
use beamlit_controller.Gateway.Handler.{weigh, total_weight}
use beamlit_controller.Offloader.{
  ClusterService, Management, Offloading, local_backend, far_backend, route_of, publish,
}
use beamlit_controller.Offloader.Replace.{print_int, value_from, print_int_value}
use beamlit_controller.Offloader.Share.{offload_share, published_again}

abbrev local_ref : ServiceReference
local_ref = record {
  kind = bytes "Service";
  namespace = bytes "n";
  name = bytes "s-beamlit";
  target_port = pos 8000;
}

abbrev remote : RemoteBackend
remote = record {
  host = bytes "run.beamlit.dev";
  auth_config = none;
  path_prefix = bytes "/$workspace/models/$model";
  headers_to_add = [];
  scheme = bytes "https";
}

abbrev service : ClusterService
service = record { name = bytes "s"; namespace = bytes "n"; cluster_ip = bytes "10.0.0.1" }

abbrev llm : ModelDeployment Text
llm = record {
  namespace = bytes "n";
  name = bytes "m";
  generation = pos 1;
  deleting = false;
  finalizers = [];
  labels = [];
  spec = record {
    model = bytes "llm";
    enabled = true;
    model_source_ref = record {
      kind = bytes "Deployment";
      namespace = bytes "n";
      name = bytes "d";
      api_version = bytes "apps/v1";
    };
    service_ref = some local_ref;
    metric_service_ref = none;
    environment = bytes "prod";
    policies = [];
    serverless_config = none;
    offloading_config = none;
  };
  status = record {
    offloading_status = false;
    serving_port = pos 0;
    metric_port = pos 0;
    workspace = bytes "w";
    created_at_on_beamlit = pos 0;
    updated_at_on_beamlit = pos 0;
  };
}

abbrev draw : ℤ → Act ℕ ℤ
draw n w = (ok (pos 70), suc w)

offload_share_example :
    let bs = map weigh (route_of (bytes "w") llm service local_ref remote (pos 30)).backends in
    (total_weight bs ≡ pos 100)
    × (weighted_random_backend draw bs (total_weight bs) 0 ≡ (
      ok (
          if ltb 70 70
          then local_backend local_ref (pos 30)
          else far_backend (bytes "w") llm remote (pos 30)),
      1,
    ))
offload_share_example =
    offload_share draw (bytes "w") llm service local_ref remote 30 70 0 1 (omega arith)
      (omega arith) refl

print_int_value_example : value_from 0 (print_int (pos 8080)) ≡ 8080
print_int_value_example = print_int_value 8080

abbrev management : Management ℕ
management = record {
  get_service = λ namespace name w. (ok service, w);
  register_route = λ r w. (ok tt, w + 1);
  update_route = λ r w. (ok tt, w + 10);
  delete_route = λ n w. (ok tt, w + 100);
}

abbrev route_named : Text → Route
route_named n = record { name = n; hostnames = []; backends = [] }

abbrev none_managed : Offloading ℕ
none_managed = record { managed_routes = []; workspace = []; world = 0 }

not_managed : lookup (bytes "m") none_managed.managed_routes ≡ none
unfolding lookup
not_managed = refl

published_again_example :
    (do publish management (route_named (bytes "m")); publish management (route_named (bytes "m")))
      none_managed
    ≡ (
      ok tt,
      record none_managed {
        managed_routes = insert (bytes "m") true (insert (bytes "m") true []);
        world = 11;
      },
    )
published_again_example =
    published_again management (route_named (bytes "m")) (route_named (bytes "m")) none_managed 1 11
      refl not_managed refl refl
