-- ===== src/Offloader.antt =====
-- internal/dataplane/offloader/beamlit_gateway_offloader.go: the route of a model on the gateway.
pub mod Replace
pub mod Share
mod Tests
use beamlit_controller.Base.{
  ℕ, zero, suc, ◌+◌, ◌/◌, ◌%◌, Bool, true, false, Option, none, some, List, [], ◌∷◌, ◌++◌, Text,
  Text_Eq, bytes, Dict, lookup, insert, delete, ltb, ℤ, pos, negsuc, ◌-ℤ◌, wrap64, Act, Result,
  Error, failure, ok, err, panic, pure, raise, lift, gets, deref, modify, catch, ◌>>=◌, ◌>>◌, ◌==◌,
  ◌&&◌, not, if◌then◌else◌,
}
use beamlit_controller.Deployment as Resource
use beamlit_controller.Gateway.Types.{AuthType, oauth, other, OAuth, Auth, Backend, Route}
use beamlit_controller.Offloader.Replace.{replace_all, print_int}

-- A service of the cluster, as far as it is read.
pub record ClusterService : Type 0 where
  pub name : Text
  pub namespace : Text
  pub cluster_ip : Text

-- The cluster and the management client of the gateway.
pub record Management (W : Type 0) : Type 0 where
  pub get_service : Text → Text → Act W ClusterService
  pub register_route : Route → Act W (Unit {0})
  pub update_route : Route → Act W (Unit {0})
  pub delete_route : Text → Act W (Unit {0})

pub record Offloading (W : Type 0) : Type 0 where
  pub managed_routes : Dict Text Bool
  pub workspace : Text
  pub world : W

abbrev pub on_gateway : {W A : Type 0} → Act W A → Act (Offloading W) A
on_gateway m o = ((m o.world).0, record o { world = (m o.world).1 })

unfoldable pub variable_replace : {M : Type 0} → Text → Text → Resource.ModelDeployment M → Text
variable_replace workspace prefix m =
    replace_all (replace_all prefix (bytes "$workspace") workspace) (bytes "$model") m.spec.model

-- The names under which the service of a model is reached.
unfoldable pub hostnames_of : ClusterService → List Text
hostnames_of s =
    let name = s.name ++ bytes "." ++ s.namespace in
    s.cluster_ip
    ∷ s.name
    ∷ name
    ∷ (name ++ bytes ".svc")
    ∷ (name ++ bytes ".svc.cluster.local")
    ∷ []

unfoldable pub local_backend : Resource.ServiceReference → ℤ → Backend
local_backend s weight = record {
  host =
      s.name ++ bytes "." ++ s.namespace ++ bytes ".svc.cluster.local:" ++ print_int s.target_port;
  weight = wrap64 (pos 100 -ℤ weight);
  auth = none;
  path_prefix = [];
  headers_to_add = [];
  scheme = bytes "http";
}

abbrev pub oauth_of : Option Resource.OAuthConfig → Option OAuth
oauth_of none = none
oauth_of (some c) =
    some
      (record { client_id = c.client_id; client_secret = c.client_secret; token_url = c.token_url })

-- A type that is not known stays empty.
abbrev pub type_of : Resource.AuthType → AuthType
type_of Resource.AuthType.oauth = oauth
type_of (Resource.AuthType.other s) = other []

abbrev pub auth_of : Option Resource.AuthConfig → Option Auth
auth_of none = none
auth_of (some c) = some (record { type = type_of c.type; oauth = oauth_of c.oauth_config })

unfoldable pub far_backend :
    {M : Type 0} → Text → Resource.ModelDeployment M → Resource.RemoteBackend → ℤ → Backend
unfolding variable_replace
far_backend workspace m b weight = record {
  host = b.host;
  weight = weight;
  auth = auth_of b.auth_config;
  path_prefix = variable_replace workspace b.path_prefix m;
  headers_to_add = b.headers_to_add;
  scheme = b.scheme;
}

unfoldable pub route_of :
    {M : Type 0}
    → Text
    → Resource.ModelDeployment M
    → ClusterService
    → Resource.ServiceReference
    → Resource.RemoteBackend
    → ℤ
    → Route
unfolding hostnames_of local_backend far_backend
route_of workspace m service near b weight = record {
  name = m.name;
  hostnames = hostnames_of service;
  backends = local_backend near weight ∷ far_backend workspace m b weight ∷ [];
}

abbrev pub workspace_of : Text → Text → Text
workspace_of known given = if known == [] && not (given == []) then given else known

abbrev pub is_managed : Option Bool → Bool
is_managed none = false
is_managed (some _) = true

module _ {W : Type 0} (k : Management W) where
  unfoldable pub publish : Route → Act (Offloading W) (Unit {0})
  publish route = do
    managed ← gets (λ o. is_managed (lookup route.name o.managed_routes))
    if managed then on_gateway (k.update_route route) else on_gateway (k.register_route route)
    modify (λ o. record o { managed_routes = insert route.name true o.managed_routes })

module _ {W M : Type 0} (k : Management W) where
  unfoldable pub configure :
      Resource.ModelDeployment M
      → Resource.ServiceReference
      → Option Resource.RemoteBackend
      → ℤ
      → Act (Offloading W) (Unit {0})
  unfolding route_of publish
  configure m near remote weight = do
    ref ← deref m.spec.service_ref
    service ← on_gateway (k.get_service ref.namespace ref.name)
    modify (λ o. record o { workspace = workspace_of o.workspace m.status.workspace })
    b ← deref remote
    workspace ← gets (λ o. o.workspace)
    publish k (route_of workspace m service near b weight)

  unfoldable pub cleanup : Resource.ModelDeployment M → Act (Offloading W) (Unit {0})
  cleanup m = do
    managed ← gets (λ o. is_managed (lookup m.name o.managed_routes))
    if managed
        then (λ o. (
          (k.delete_route m.name o.world).0,
          record o {
            managed_routes = delete m.name o.managed_routes;
            world = (k.delete_route m.name o.world).1;
          },
        ))
        else pure tt
