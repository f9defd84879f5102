-- ===== src/Controller/Failover.antt =====
-- A model that fails and comes back, with components that answer.
use beamlit_controller.Base.{
  Bool, true, false, Option, some, [], ◌∷◌, Text, Act, ok, panic, sym, ℤ, pos, ◌≡◌, ◌≢◌, refl,
  arith, Text_Eq, lookup, insert, lookup-insert_self, pure, int_eq, int_eq_iff,
}
use beamlit_controller.Deployment.{
  ServiceReference, RemoteBackend, ModelDeployment, OffloadingConfig, OffloadingBehavior,
}
use beamlit_controller.Controller.State.{ManagedModel, Reconciler, Deps, key}
use beamlit_controller.Controller.Callbacks.{
  percentage, offload_to, remote_backend, try_notify, notify_on_beamlit, on_failure, on_recovery,
  health_check_callback, metric_callback, or_default,
}
use beamlit_controller.Controller.Watch.{health_status, metric_status, watch_step, watch}
use beamlit_controller.Controller.Recovery.{Serves, filled, step-health, step-metric}

-- The configurer knows the local service, the offloader succeeds, and the notification of Beamlit
-- returns, with an error or without.
pub record Responds {W M B : Type 0} (d : Deps W M B) : Type 0 where
  pub local : Option ServiceReference → W → ServiceReference
  pub found : (s : Option ServiceReference) (w : W) → (d.get_local_service s w).0 ≡ ok (local s w)
  pub offloaded :
      (m : ModelDeployment M) (s : ServiceReference) (o : Option RemoteBackend) (p : ℤ) (w : W)
      → (d.offload m s o p w).0 ≡ ok tt
  pub notified :
      (model environment : Text) (b : Bool) (w : W)
      → (d.notify_offloading model environment b w).0 ≢ panic

-- The world after the model was offloaded: the configurer is asked for the local service, the
-- offloader is told the local service, the remote backend and its share, and Beamlit is told that
-- the model is offloaded.
abbrev pub moved :
    {W M B : Type 0} (d : Deps W M B)
    → Responds d
    → ModelDeployment M
    → Option RemoteBackend
    → ℤ
    → W
    → W
moved d responds m remote share w =
    let asked = (d.get_local_service m.spec.service_ref w).1 in
    let placed = (d.offload m (responds.local m.spec.service_ref w) remote share asked).1 in
    (d.notify_offloading m.spec.model m.spec.environment true placed).1

module _ {W M B : Type 0} (d : Deps W M B) (responds : Responds d) where
  try_notify_lem :
      (m : ModelDeployment M) (b : Bool) (r : Reconciler W)
      → try_notify d m b r ≡ (
        ok tt,
        record r { world = (d.notify_offloading m.spec.model m.spec.environment b r.world).1 },
      )
  unfolding try_notify notify_on_beamlit
  try_notify_lem m b r = ground (arith, responds.notified m.spec.model m.spec.environment b r.world)

  module _ (m : ModelDeployment M) (c : OffloadingConfig M)
      (config : m.spec.offloading_config ≡ some c) where
    offload_to_lem :
        (a : Act (Reconciler W) ℤ) (p : ℤ)
        → ((r : Reconciler W) → a r ≡ (ok p, r))
        → (r : Reconciler W)
        → offload_to d m a r ≡ (
          ok tt,
          record r {
            world =
                (d.offload m
                  (responds.local m.spec.service_ref r.world)
                  c.remote_backend
                  p
                  (d.get_local_service m.spec.service_ref r.world).1).1;
          },
        )
    unfolding offload_to remote_backend
    offload_to_lem a p h r =
        let w = (d.get_local_service m.spec.service_ref r.world).1 in
        let s = responds.local m.spec.service_ref r.world in
        simp (
          responds.found m.spec.service_ref r.world,
          config,
          h (record r { world = w }),
          responds.offloaded m s c.remote_backend p w,
        )

    on_failure_lem :
        (r : Reconciler W)
        → on_failure d m r ≡ (
          ok tt,
          record r {
            ongoing_offloadings = insert (key m) (pos 100) r.ongoing_offloadings;
            model_state = insert (key m) false r.model_state;
            world = moved d responds m c.remote_backend (pos 100) r.world;
          },
        )
    unfolding on_failure
    on_failure_lem r =
        rw (offload_to_lem (pure (pos 100)) (pos 100) (λ q. refl) r)
          (rw (try_notify_lem m true _) refl)

    module _ (b : OffloadingBehavior) (behavior : c.behavior ≡ some b) where
      percentage_lem : (r : Reconciler W) → percentage m r ≡ (ok b.percentage, r)
      unfolding percentage
      percentage_lem r = rw (config, behavior)

      on_recovery_lem :
          (p : ℤ) (r : Reconciler W)
          → p ≢ b.percentage
          → on_recovery d m (some p) r ≡ (
            ok tt,
            record r {
              ongoing_offloadings = insert (key m) b.percentage r.ongoing_offloadings;
              model_state = insert (key m) true r.model_state;
              world = moved d responds m c.remote_backend b.percentage r.world;
            },
          )
      unfolding on_recovery
      on_recovery_lem p r h =
          let differs : int_eq p b.percentage ≡ false = ground (arith, int_eq_iff p b.percentage) in
          rw
            (percentage_lem r, differs, offload_to_lem (percentage m) b.percentage percentage_lem r)
            (rw (try_notify_lem m true _) refl)

-- The state after a model was offloaded.
abbrev pub offloaded_state :
    {W M B : Type 0} (d : Deps W M B)
    → Responds d
    → ModelDeployment M
    → OffloadingConfig M
    → ℤ
    → Bool
    → Reconciler W
    → Reconciler W
offloaded_state d responds m c share up r = record r {
  ongoing_offloadings = insert (key m) share r.ongoing_offloadings;
  model_state = insert (key m) up r.model_state;
  world =
      moved d responds (filled r m c) (or_default c.remote_backend r.default_remote_backend) share
        r.world;
}

module _ {W M B : Type 0} (d : Deps W M B) (name : Text) (m : ModelDeployment M)
    (c : OffloadingConfig M) (b : OffloadingBehavior) (v : ManagedModel) where
  -- The state after a report that the model is unhealthy.
  failed_state :
      (r : Reconciler W) (responds : Responds d)
      → Serves d name m c b v
      → lookup name r.managed_models ≡ some v
      → watch_step d (health_status name false) r
        ≡ (ok tt, offloaded_state d responds m c (pos 100) false r)
  unfolding health_check_callback key
  failed_state r responds serves managed =
      rw
        (
          step-health d name m c b v serves r managed false,
          on_failure_lem d responds (filled r m c) (filled_config r) refl r,
        )
        refl
    where
      filled_config : Reconciler W → OffloadingConfig M
      filled_config q = record c {
        remote_backend = or_default c.remote_backend q.default_remote_backend;
      }

  -- A report that a managed model is unhealthy offloads it to 100 percent and marks it as down,
  -- whatever the maps held for it: the configurer is asked for the local service, the offloader is
  -- told to send 100 percent to the remote backend of the model, or else to the default one, Beamlit
  -- is told that the model is offloaded, the maps note 100 and down, and nothing else changes. A
  -- report on its metrics right after it changes nothing. It supposes that the resource is read,
  -- and that the components that the controller calls answer, whether or not Beamlit accepts the
  -- notification.
  pub failure_offloads :
      (r : Reconciler W) (responds : Responds d)
      → Serves d name m c b v
      → lookup name r.managed_models ≡ some v
      → let s = record r {
        ongoing_offloadings = insert (key m) (pos 100) r.ongoing_offloadings;
        model_state = insert (key m) false r.model_state;
        world =
            moved d responds
              (filled r m c)
              (or_default c.remote_backend r.default_remote_backend)
              (pos 100)
              r.world;
      } in
        (watch_step d (health_status name false) r ≡ (ok tt, s))
        × ((reached : Bool) → watch_step d (metric_status name reached) s ≡ (ok tt, s))
  unfolding metric_callback key
  failure_offloads r responds serves managed =
      let s = offloaded_state d responds m c (pos 100) false r in
      (
        failed_state r responds serves managed,
        λ reached.
            rw
              (
                step-metric d name m c b v serves s managed reached,
                lookup-insert_self (key m) false r.model_state,
              )
              refl,
      )

  -- A managed model whose percentage is not 100, and that is reported unhealthy and then healthy,
  -- is offloaded to 100 percent and then to its configured percentage, which is what the maps note
  -- in the end, with the model as up: each time the configurer is asked for the local service, the
  -- offloader is told the share of the remote backend, and Beamlit is told, and nothing else
  -- happens. It supposes that the resource is read, and that the components that the controller
  -- calls answer, whether or not Beamlit accepts the notifications.
  pub recovery_restores :
      (r : Reconciler W) (responds : Responds d)
      → Serves d name m c b v
      → lookup name r.managed_models ≡ some v
      → b.percentage ≢ pos 100
      → let remote = or_default c.remote_backend r.default_remote_backend in
        watch d (health_status name false ∷ health_status name true ∷ []) r ≡ (
          ok tt,
          record r {
            ongoing_offloadings =
                insert (key m) b.percentage (insert (key m) (pos 100) r.ongoing_offloadings);
            model_state = insert (key m) true (insert (key m) false r.model_state);
            world =
                moved d responds
                  (filled r m c)
                  remote
                  b.percentage
                  (moved d responds (filled r m c) remote (pos 100) r.world);
          },
        )
  unfolding watch health_check_callback key
  recovery_restores r responds serves managed below =
      let s = offloaded_state d responds m c (pos 100) false r in
      rw (failed_state r responds serves managed) (
        rw
          (
            step-health d name m c b v serves s managed true,
            lookup-insert_self (key m) (pos 100) r.ongoing_offloadings,
            on_recovery_lem d responds (filled s m c) _ refl b serves.behavior (pos 100) s
                (λ q. below (sym q)),
          )
          refl)
