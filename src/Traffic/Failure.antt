-- ===== src/Traffic/Failure.antt =====
-- A failure of a model's pods, up to the backend that is drawn for a request.
use beamlit_controller.Base.{
  ℕ, ◌<◌, ◌-◌, ltb, true, false, some, map, Text, Text_Eq, lookup, ℤ, pos, Act, Result, ok, ◌≡◌,
  ◌∙◌, ap, arith, if◌then◌else◌,
}
use beamlit_controller.Deployment.{
  ServiceReference, RemoteBackend, ModelDeployment, OffloadingConfig, OffloadingBehavior,
}
use beamlit_controller.Controller.State.{ManagedModel, Reconciler, Deps}
use beamlit_controller.Controller.Callbacks.{or_default}
use beamlit_controller.Controller.Watch.{health_status, watch_step}
use beamlit_controller.Controller.Recovery.{Serves}
use beamlit_controller.Gateway.Proxy.{ProxyState, is_among}
use beamlit_controller.Gateway.Pick.{weighted_random_backend}
use beamlit_controller.Gateway.Handler.{weigh, total_weight}
use beamlit_controller.Offloader.{
  local_backend, ClusterService, Management, Offloading, route_of, far_backend, hostnames_of,
}
use beamlit_controller.Traffic.Calls.{Cause}
use beamlit_controller.Traffic.Shares.{report_moves_traffic}
use beamlit_controller.Traffic.Stored.{Reaches, Aside, wired}

no_draw_below : {A : Type 0} (n : ℕ) (x y : A) → (if ltb n (100 - 100) then x else y) ≡ y
no_draw_below n x y = ground arith

module _ {W M B : Type 0} (d : Deps (Offloading W) M B) (k : Management W)
    (gateway : W → ProxyState) (service : Text → Text → ClusterService)
    (near ref : ServiceReference) (m : ModelDeployment M) (c : OffloadingConfig M)
    (y : OffloadingBehavior) (v : ManagedModel) (name : Text) (b : RemoteBackend) where
  abbrev failed : Reconciler (Offloading W) → Result (Unit {0}) × Reconciler (Offloading W)
  failed r = watch_step (wired d k) (health_status name false) r

  -- When a managed model is reported unhealthy, the gateway leads every name of its service to the
  -- route of the model, and whatever is drawn for a request of that route, its backend is the
  -- remote one. It supposes that the management client reaches the gateway, that the configurer
  -- and the client of Beamlit answer and leave the gateway alone, and that the model has a service
  -- and a remote backend, its own or the default one.
  pub failure_moves_traffic :
      {V : Type 0} (intn : ℤ → Act V ℤ) (draw : ℕ) (u t : V) (h : Text)
      (r : Reconciler (Offloading W))
      → Reaches k gateway service
      → Aside d gateway near
      → Serves d name m c y v
      → lookup name r.managed_models ≡ some v
      → m.spec.service_ref ≡ some ref
      → or_default c.remote_backend r.default_remote_backend ≡ some b
      → is_among h (hostnames_of (service ref.namespace ref.name)) ≡ true
      → draw < 100
      → intn (pos 100) u ≡ (ok (pos draw), t)
      → let p = gateway (failed r).1.world.world in
        ((failed r).0 ≡ ok tt)
        × (lookup h p.routes_per_host ≡ some m.name)
        × ((workspace : Text) × let route =
                route_of workspace m (service ref.namespace ref.name) near b (pos 100) in
              let bs = map weigh route.backends in
              (lookup m.name p.routes ≡ some route)
              × (weighted_random_backend intn bs (total_weight bs) u
                  ≡ (ok (far_backend workspace m b (pos 100)), t)))
  failure_moves_traffic intn draw u t h r reaches aside serves managed given remote host low drawn =
      let moved =
        report_moves_traffic d k gateway service near ref m c y v name b 0 Cause.failed intn draw u
          t h r reaches aside serves managed given remote (omega arith) tt host low drawn in
      (
        moved.0,
        moved.1,
        (
          moved.2.0,
          (
            moved.2.1.0,
            moved.2.1.1
                ∙ ap (λ a. (ok a, t))
                    (no_draw_below draw (local_backend near (pos 100))
                      (far_backend moved.2.0 m b (pos 100))),
          ),
        ),
      )
