-- ===== src/Offloader/Share.antt =====
-- How a configured route spreads the requests.
use beamlit_controller.Base.{
  none, lookup, insert, lookup-insert_self, Text_Eq, ◌>>◌, ℕ, ◌-◌, ◌≤◌, ◌<◌, true, map, Text, ltb,
  ℤ, pos, ◌-ℤ◌, wrap64, add64, add64-pos, total64, Act, ok, ◌≡◌, refl, arith, ◌∙◌, ap,
  if◌then◌else◌,
}
use beamlit_controller.Deployment.{ServiceReference, RemoteBackend, ModelDeployment}
use beamlit_controller.Gateway.Types.{Route}
use beamlit_controller.Gateway.Pick.{weighted_random_backend, pick}
use beamlit_controller.Gateway.Handler.{weigh, total_weight}
use beamlit_controller.Offloader.{
  Management, Offloading, publish, ClusterService, local_backend, far_backend, route_of,
}

local_weight : (p : ℕ) → p ≤ 100 → wrap64 (pos 100 -ℤ pos p) ≡ pos (100 - p)
unfolding ◌-ℤ◌ wrap64
local_weight p h = ground arith

add_up : (p : ℕ) → p ≤ 100 → add64 (pos (100 - p)) (pos p) ≡ pos 100
add_up p h = add64-pos (100 - p) p (omega arith) ∙ ap pos (omega arith)

start : (p : ℕ) → p ≤ 100 → add64 (pos 0) (pos (100 - p)) ≡ pos (100 - p)
start p h = add64-pos 0 (100 - p) (omega arith) ∙ ap pos (omega arith)

-- Of the route that Configure builds for a percentage up to 100, the gateway sends a request to
-- the remote backend exactly if its draw, out of 100, is at least 100 less the percentage: as many
-- draws as the percentage says. The others go to the local service.
pub offload_share :
    {W M : Type 0} (intn : ℤ → Act W ℤ) (workspace : Text) (m : ModelDeployment M)
    (service : ClusterService) (near : ServiceReference) (b : RemoteBackend) (p r : ℕ) (w v : W)
    → p ≤ 100
    → r < 100
    → intn (pos 100) w ≡ (ok (pos r), v)
    → let bs = map weigh (route_of workspace m service near b (pos p)).backends in
      (total_weight bs ≡ pos 100)
      × (weighted_random_backend intn bs (total_weight bs) w ≡ (
        ok (
            if ltb r (100 - p)
            then local_backend near (pos p)
            else far_backend workspace m b (pos p)),
        v,
      ))
unfolding route_of local_backend far_backend total64 weighted_random_backend pick
offload_share intn workspace m service near b p r w v small low drawn =
    rw (local_weight p small, start p small, add_up p small, drawn) (refl, ground arith)

-- The first route under a name is registered on the gateway, and the next route under the same name
-- updates it: so do the routes of two models of one name in two namespaces.
pub published_again :
    {W : Type 0} (k : Management W) (a b : Route) (o : Offloading W) (w v : W)
    → a.name ≡ b.name
    → lookup a.name o.managed_routes ≡ none
    → k.register_route a o.world ≡ (ok tt, w)
    → k.update_route b w ≡ (ok tt, v)
    → (do publish k a; publish k b) o ≡ (
      ok tt,
      record o {
        managed_routes = insert b.name true (insert a.name true o.managed_routes);
        world = v;
      },
    )
unfolding publish
published_again k a b o w v same unmanaged registered updated =
    rw (unmanaged, registered)
      (rw (same, lookup-insert_self b.name true o.managed_routes, updated) refl)
