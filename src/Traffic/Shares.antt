-- ===== src/Traffic/Shares.antt =====
-- A report on a model, up to the backend that is drawn for a request.
use beamlit_controller.Base.{
  ℕ, ◌<◌, ◌≤◌, ◌-◌, ltb, true, false, some, map, Text, Text_Eq, lookup, ℤ, pos, Act, Result, ok,
  catch, pure, ◌≡◌, refl, ◌∙◌, ap, arith, eq_refl, if◌then◌else◌,
}
use beamlit_controller.Deployment.{
  ServiceReference, RemoteBackend, ModelDeployment, OffloadingConfig, OffloadingBehavior,
}
use beamlit_controller.Controller.State.{ManagedModel, Reconciler, Deps, key}
use beamlit_controller.Controller.Callbacks.{or_default}
use beamlit_controller.Controller.Watch.{watch_step}
use beamlit_controller.Controller.Recovery.{Serves, filled, step-health, step-metric}
use beamlit_controller.Gateway.Proxy.{ProxyState, register_route, is_among, register_resolves}
use beamlit_controller.Gateway.Pick.{weighted_random_backend}
use beamlit_controller.Gateway.Handler.{weigh, total_weight}
use beamlit_controller.Offloader.{
  local_backend, ClusterService, Management, Offloading, route_of, far_backend, hostnames_of,
  variable_replace,
}
use beamlit_controller.Offloader as Offloader
use beamlit_controller.Offloader.Share.{offload_share}
use beamlit_controller.Traffic.Calls.{
  Cause, failed, recovered, reached, relieved, event_of, share_of, told, IsDue, callback,
  callback-Calls,
}
use beamlit_controller.Traffic.Stored.{Reaches, Aside, wired, configure-stores}

module _ {W M B : Type 0} (d : Deps W M B) (name : Text) (m : ModelDeployment M)
    (c : OffloadingConfig M) (y : OffloadingBehavior) (v : ManagedModel)
    (serves : Serves d name m c y v) (r : Reconciler W)
    (managed : lookup name r.managed_models ≡ some v) where
  step-callback :
      (x : Cause)
      → watch_step d (event_of name x) r ≡ catch (callback d (filled r m c) x) (λ _. pure tt) r
  step-callback failed = step-health d name m c y v serves r managed false
  step-callback recovered = step-health d name m c y v serves r managed true
  step-callback reached = step-metric d name m c y v serves r managed true
  step-callback relieved = step-metric d name m c y v serves r managed false

caught :
    {S : Type 0} (m : Act S (Unit {0})) (s : S)
    → (m s).0 ≡ ok tt
    → catch m (λ _. pure tt) s ≡ (ok tt, (m s).1)
caught m s h = rw h refl

module _ {W M B : Type 0} (d : Deps (Offloading W) M B) (k : Management W)
    (gateway : W → ProxyState) (service : Text → Text → ClusterService)
    (near ref : ServiceReference) (m : ModelDeployment M) (c : OffloadingConfig M)
    (y : OffloadingBehavior) (v : ManagedModel) (name : Text) (b : RemoteBackend) (p : ℕ)
    (x : Cause) where
  abbrev reported : Reconciler (Offloading W) → Result (Unit {0}) × Reconciler (Offloading W)
  reported r = watch_step (wired d k) (event_of name x) r

  reported-stores :
      (r : Reconciler (Offloading W))
      → Reaches k gateway service
      → Aside d gateway near
      → Serves d name m c y v
      → lookup name r.managed_models ≡ some v
      → m.spec.service_ref ≡ some ref
      → or_default c.remote_backend r.default_remote_backend ≡ some b
      → IsDue y.percentage p (key m) r x
      → ((reported r).0 ≡ ok tt)
        × ((workspace : Text) × (gateway (reported r).1.world.world
              ≡ (register_route
                  (route_of workspace m
                    (service ref.namespace ref.name)
                    near
                    b
                    (pos (share_of p x)))
                  (gateway r.world.world)).1))
  unfolding route_of far_backend variable_replace key
  reported-stores r reaches aside serves managed given remote due =
      let reference = m.spec.service_ref in
      let o = (d.get_local_service reference r.world).1 in
      let backend = or_default c.remote_backend r.default_remote_backend in
      let n = share_of p x in
      let w = (Offloader.configure k (filled r m c) near backend (pos n) o).1 in
      let stores = λ (n : ℕ).
        configure-stores k gateway service reaches (filled r m c) ref near b (pos n) given backend
          remote o in
      let calls =
        callback-Calls (wired d k) (filled r m c) (record c { remote_backend = backend }) y near
          refl serves.behavior p r (aside.local reference r.world) (λ n. (stores n).0)
          (aside.notified m.spec.model m.spec.environment) x due in
      let same =
        step-callback (wired d k) name m c y v serving r managed x
        ∙ caught (callback (wired d k) (filled r m c) x) r calls.0 in
      (
        ap (λ q. q.0) same,
        (
          (stores n).1.0,
          ap (λ q. gateway q.1.world.world) same
              ∙ ap (λ q. gateway q.world) calls.1
              ∙ aside.notified_only m.spec.model m.spec.environment (told x) w
              ∙ (stores n).1.1
              ∙ ap
                  (λ g.
                    (register_route
                      (route_of (stores n).1.0 m (service ref.namespace ref.name) near b (pos n))
                      g).1)
                  (aside.local_only reference r.world),
        ),
      )
    where
      serving : Serves (wired d k) name m c y v
      serving = record {
        read = serves.read;
        healthy = serves.healthy;
        config = serves.config;
        behavior = serves.behavior;
      }

  -- A report on a managed model that the reconciler acts on moves the traffic on the gateway to the
  -- share that it asks for: all of it to the remote backend after a failure, the configured
  -- percentage after a recovery or when the metrics are reached, and none when they no longer are.
  -- Every name of the model's service leads to its route, and a request of that route goes to the
  -- remote backend exactly if its draw, out of 100, is at least 100 less the share, and to the local
  -- service otherwise. It supposes that the management client reaches the gateway, that the
  -- configurer and the client of Beamlit answer and leave the gateway alone, that the model has a
  -- service and a remote backend, its own or the default one, and a percentage up to 100.
  pub report_moves_traffic :
      {V : Type 0} (intn : ℤ → Act V ℤ) (draw : ℕ) (u t : V) (h : Text)
      (r : Reconciler (Offloading W))
      → Reaches k gateway service
      → Aside d gateway near
      → Serves d name m c y v
      → lookup name r.managed_models ≡ some v
      → m.spec.service_ref ≡ some ref
      → or_default c.remote_backend r.default_remote_backend ≡ some b
      → p ≤ 100
      → IsDue y.percentage p (key m) r x
      → is_among h (hostnames_of (service ref.namespace ref.name)) ≡ true
      → draw < 100
      → intn (pos 100) u ≡ (ok (pos draw), t)
      → let q = gateway (reported r).1.world.world in
        ((reported r).0 ≡ ok tt)
        × (lookup h q.routes_per_host ≡ some m.name)
        × ((workspace : Text) × let share = pos (share_of p x) in
              let route = route_of workspace m (service ref.namespace ref.name) near b share in
              let bs = map weigh route.backends in
              (lookup m.name q.routes ≡ some route)
              × (weighted_random_backend intn bs (total_weight bs) u ≡ (
                ok (
                    if ltb draw (100 - share_of p x)
                    then local_backend near share
                    else far_backend workspace m b share),
                t,
              )))
  unfolding route_of
  report_moves_traffic intn draw u t h r reaches aside serves managed given remote small due host
        low drawn =
      let stores = reported-stores r reaches aside serves managed given remote due in
      let workspace = stores.1.0 in
      let service_of = service ref.namespace ref.name in
      let (_, named, hosts, _) =
        register_resolves (route_of workspace m service_of near b (pos (share_of p x)))
          (gateway r.world.world) in
      (
        stores.0,
        ap (λ q. lookup h q.routes_per_host) stores.1.1 ∙ hosts h ∙ rw host refl,
        (
          workspace,
          (
            ap (λ q. lookup m.name q.routes) stores.1.1 ∙ named m.name ∙ rw (eq_refl m.name) refl,
            (offload_share intn workspace m service_of near b (share_of p x) draw u t (within x) low
                drawn).1,
          ),
        ),
      )
    where
      within : (x : Cause) → share_of p x ≤ 100
      within failed = omega arith
      within recovered = small
      within reached = small
      within relieved = omega arith
