-- ===== src/Traffic/Stored.antt =====
-- What Configure of the offloader leaves on the gateway.
use beamlit_controller.Base.{
  Bool, true, false, ◌≢◌, panic, Option, some, Text, Text_Eq, lookup, ℤ, ok, ◌≡◌, refl, ◌∙◌, ap,
}
use beamlit_controller.Deployment.{ServiceReference, RemoteBackend, ModelDeployment}
use beamlit_controller.Controller.State.{Deps}
use beamlit_controller.Gateway.Types.{Route}
use beamlit_controller.Gateway.Proxy.{ProxyState, register_route, update_route}
use beamlit_controller.Gateway.InMem
use beamlit_controller.Offloader.{
  workspace_of, ClusterService, Management, Offloading, is_managed, publish, route_of,
}
use beamlit_controller.Offloader as Offloader

-- A management client that reaches the gateway: `gateway` is the state of the proxy, and `service`
-- is what the cluster answers.
pub record Reaches {W : Type 0} (k : Management W) (gateway : W → ProxyState)
    (service : Text → Text → ClusterService) : Type 0 where
  pub read : (n s : Text) (w : W) → (k.get_service n s w).0 ≡ ok (service n s)
  pub read_only : (n s : Text) (w : W) → gateway (k.get_service n s w).1 ≡ gateway w
  pub registered : (r : Route) (w : W) → (k.register_route r w).0 ≡ ok tt
  pub on_register :
      (r : Route) (w : W) → gateway (k.register_route r w).1 ≡ (register_route r (gateway w)).1
  pub updated : (r : Route) (w : W) → (k.update_route r w).0 ≡ ok tt
  pub on_update :
      (r : Route) (w : W) → gateway (k.update_route r w).1 ≡ (update_route r (gateway w)).1

-- The reconciler with the offloader behind its interface.
abbrev pub wired :
    {W M B : Type 0} → Deps (Offloading W) M B → Management W → Deps (Offloading W) M B
wired d k = record d { offload = λ m near remote p. Offloader.configure k m near remote p }

-- The other components leave the gateway.
pub record Aside {W M B : Type 0} (d : Deps (Offloading W) M B) (gateway : W → ProxyState)
    (near : ServiceReference) : Type 0 where
  pub local :
      (s : Option ServiceReference) (o : Offloading W) → (d.get_local_service s o).0 ≡ ok near
  pub local_only :
      (s : Option ServiceReference) (o : Offloading W)
      → gateway (d.get_local_service s o).1.world ≡ gateway o.world
  pub notified :
      (n e : Text) (b : Bool) (o : Offloading W) → (d.notify_offloading n e b o).0 ≢ panic
  pub notified_only :
      (n e : Text) (b : Bool) (o : Offloading W)
      → gateway (d.notify_offloading n e b o).1.world ≡ gateway o.world

module _ {W : Type 0} (k : Management W) (gateway : W → ProxyState)
    (service : Text → Text → ClusterService) (reaches : Reaches k gateway service) where
  same_store : (r : Route) (p : ProxyState) → (update_route r p).1 ≡ (register_route r p).1
  unfolding update_route register_route InMem.update_route InMem.register_route
  same_store r p = refl

  -- Registered or updated, the gateway has the route.
  publish-stores :
      (r : Route) (o : Offloading W)
      → ((publish k r o).0 ≡ ok tt)
        × (gateway (publish k r o).1.world ≡ (register_route r (gateway o.world)).1)
  unfolding publish
  publish-stores r o = go (is_managed (lookup r.name o.managed_routes)) refl
    where
      go :
          (b : Bool)
          → is_managed (lookup r.name o.managed_routes) ≡ b
          → ((publish k r o).0 ≡ ok tt)
            × (gateway (publish k r o).1.world ≡ (register_route r (gateway o.world)).1)
      go true h =
          rw (h, reaches.updated r o.world)
            (refl, reaches.on_update r o.world ∙ same_store r (gateway o.world))
      go false h = rw (h, reaches.registered r o.world) (refl, reaches.on_register r o.world)

  module _ {M : Type 0} (m : ModelDeployment M) (ref near : ServiceReference) (b : RemoteBackend)
      (p : ℤ) (given : m.spec.service_ref ≡ some ref) (remote : Option RemoteBackend)
      (far : remote ≡ some b) where
    -- Configure returns, and leaves the route of the model on the gateway.
    pub configure-stores :
        (o : Offloading W)
        → ((Offloader.configure k m near remote p o).0 ≡ ok tt)
          × ((workspace : Text) × (gateway (Offloader.configure k m near remote p o).1.world
                ≡ (register_route
                    (route_of workspace m (service ref.namespace ref.name) near b p)
                    (gateway o.world)).1))
    unfolding Offloader.configure
    configure-stores o =
        let w = (k.get_service ref.namespace ref.name o.world).1 in
        let workspace = workspace_of o.workspace m.status.workspace in
        let route = route_of workspace m (service ref.namespace ref.name) near b p in
        let q = record o { workspace = workspace; world = w } in
        let (returned, stored) = publish-stores route q in
        rw (given, far, reaches.read ref.namespace ref.name o.world)
          (
            returned,
            (
              workspace,
              stored
                  ∙ ap (λ g. (register_route route g).1)
                      (reaches.read_only ref.namespace ref.name o.world),
            ),
          )
