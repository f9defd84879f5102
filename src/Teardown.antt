-- ===== src/Teardown.antt =====
-- The deletion of a resource, with the configurer behind its interface: finalizeModel of
-- internal/controller/modeldeployment_controller.go calls Unconfigure of
-- internal/dataplane/configurer/kubernetes_configurer.go.
mod Tests
use beamlit_controller.Base.{
  ℕ, zero, suc, delete, Text_Eq, true, some, List, [], ◌∷◌, All, Text, Result, err, ok, failure,
  ◌≡◌, refl, sym,
}
use mathlib.Core.Path.{subst}
use beamlit_controller.Deployment.{ServiceReference, OffloadingConfig, ModelDeployment}
use beamlit_controller.Configurer.Cluster.{Kube, NamespacedName_Eq}
use beamlit_controller.Configurer.State.{Configurer}
use beamlit_controller.Configurer.Release.{unconfigure}
use beamlit_controller.Configurer.Stuck.{IsHalfDone, unconfigure_refuses}
use beamlit_controller.Controller.State.{Reconciler, Deps, key, join_key}
use beamlit_controller.Controller.Reconcile.{
  ReconcileResult, finalize_offloading, finalize_model, reconcile_found, reconcile,
}

-- The reconciler with the configurer behind its interface.
abbrev pub with_configurer :
    {W M B : Type 0} → Deps (Configurer W) M B → Kube W → Deps (Configurer W) M B
with_configurer d k = record d { unconfigure_service = λ o. unconfigure k o }

-- The resource is being deleted, and the informers forget it without touching the configurer.
pub record IsLeaving {W M B : Type 0} (d : Deps (Configurer W) M B) (namespace name : Text)
    (m : ModelDeployment M) (ref : ServiceReference) : Type 0 where
  pub read : (c : Configurer W) → d.get_model namespace name c ≡ (ok m, c)
  pub deleting : m.deleting ≡ true
  pub finalizer : d.contains_finalizer m ≡ true
  pub config : OffloadingConfig M
  pub has_config : m.spec.offloading_config ≡ some config
  pub service : m.spec.service_ref ≡ some ref
  pub metrics : (k : Text) (c : Configurer W) → (d.unregister_metrics k c).0 ≡ ok tt
  pub metrics_only :
      (k : Text) (c : Configurer W) → IsHalfDone ref c → IsHalfDone ref (d.unregister_metrics k c).1
  pub health : (k : Text) (c : Configurer W) → (d.unregister_health k c).0 ≡ ok tt
  pub health_only :
      (k : Text) (c : Configurer W) → IsHalfDone ref c → IsHalfDone ref (d.unregister_health k c).1

module _ {W M B : Type 0} (d : Deps (Configurer W) M B) (k : Kube W) (namespace name : Text)
    (m : ModelDeployment M) (ref : ServiceReference)
    (leaving : IsLeaving d namespace name m ref) where
  left : Configurer W → Configurer W
  left c = (d.unregister_health (key m) (d.unregister_metrics (key m) c).1).1

  left-IsHalfDone : (c : Configurer W) → IsHalfDone ref c → IsHalfDone ref (left c)
  unfolding left
  left-IsHalfDone c h = leaving.health_only _ _ (leaving.metrics_only _ _ h)

  finalize_offloading-refused :
      (r : Reconciler (Configurer W))
      → IsHalfDone ref r.world
      → finalize_offloading (with_configurer d k) (some leaving.config) m r
        ≡ (err (failure "stop channel not found"), record r { world = left r.world })
  unfolding finalize_offloading left
  finalize_offloading-refused r h = simp (
    leaving.metrics (key m) r.world,
    leaving.health (key m) (d.unregister_metrics (key m) r.world).1,
    leaving.service,
    unconfigure_refuses k ref
        (d.unregister_health (key m) (d.unregister_metrics (key m) r.world).1).1
        (leaving.health_only _ _ (leaving.metrics_only _ _ h)),
  )

  finalize_model-refused :
      (r : Reconciler (Configurer W))
      → IsHalfDone ref r.world
      → ((finalize_model (with_configurer d k) m r).0 ≡ err (failure "stop channel not found"))
        × ((finalize_model (with_configurer d k) m r).1.world ≡ left r.world)
  unfolding finalize_model
  finalize_model-refused r h =
      let q = record r {
        ongoing_offloadings = delete (key m) r.ongoing_offloadings;
        model_state = delete (key m) r.model_state;
        managed_models = delete (key m) r.managed_models;
        beamlit_models = delete (join_key m.spec.environment m.spec.model) r.beamlit_models;
      } in
      simp leaving.has_config (rw (finalize_offloading-refused q h) (refl, refl))

  refused :
      (r : Reconciler (Configurer W))
      → IsHalfDone ref r.world
      → ((reconcile (with_configurer d k) namespace name r).0
          ≡ err (failure "stop channel not found"))
        × ((reconcile (with_configurer d k) namespace name r).1.world ≡ left r.world)
  unfolding reconcile reconcile_found
  refused r h =
      simp (leaving.read r.world, leaving.deleting, leaving.finalizer)
        (rw ((finalize_model-refused r h).0) (refl, (finalize_model-refused r h).1))

-- Reconciliations of the resource, one after another: what they return, and what they leave.
unfoldable pub tries :
    {W M B : Type 0}
    → Deps W M B
    → Text
    → Text
    → ℕ
    → Reconciler W
    → List (Result ReconcileResult) × Reconciler W
tries d namespace name zero r = ([], r)
tries d namespace name (suc n) r =
    let rest = tries d namespace name n (reconcile d namespace name r).1 in
    ((reconcile d namespace name r).0 ∷ rest.0, rest.1)

-- A resource that is being deleted, and whose service Configure has taken over in part, is never
-- rid of its finalizer: however often it is reconciled, each reconciliation ends with the error of
-- Unconfigure, before the finalizer is taken off, and the local service stays known. It supposes
-- that the resource has an offloading configuration, and that the informers forget the model
-- without touching the maps of the configurer.
pub deletion_never_ends :
    {W M B : Type 0} (d : Deps (Configurer W) M B) (k : Kube W) (namespace name : Text)
    (m : ModelDeployment M) (ref : ServiceReference) (n : ℕ) (r : Reconciler (Configurer W))
    → IsLeaving d namespace name m ref
    → IsHalfDone ref r.world
    → All
        (λ x. x ≡ err (failure "stop channel not found"))
        (tries (with_configurer d k) namespace name n r).0
      × IsHalfDone ref (tries (with_configurer d k) namespace name n r).1.world
unfolding tries
deletion_never_ends d k namespace name m ref zero r leaving half = (tt, half)
deletion_never_ends d k namespace name m ref (suc n) r leaving half =
    let (returned, world) = refused d k namespace name m ref leaving r half in
    let rest =
      deletion_never_ends d k namespace name m ref n
        (reconcile (with_configurer d k) namespace name r).1 leaving
        (subst (IsHalfDone ref) (sym world)
          (left-IsHalfDone d k namespace name m ref leaving r.world half)) in
    ((returned, rest.0), rest.1)
