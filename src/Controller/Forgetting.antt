-- ===== src/Controller/Forgetting.antt =====
-- What Reconcile leaves of a resource that is deleted, or whose reconciliation fails.
use beamlit_controller.Base.{
  true, Option, none, some, Text, Act, Result, ok, err, panic, ◌≡◌, arith, Text_Eq, lookup, delete,
  lookup-delete_self, pure, ◌>>◌,
}
use beamlit_controller.Base.Keeps.{Keeps, Keeps-bind, Keeps-pure, keeps_rules}
use beamlit_controller.Deployment.{ModelDeployment, OffloadingConfig}
use beamlit_controller.Controller.State.{Reconciler, Deps, key, join_key, call}
use beamlit_controller.Controller.Reconcile.{
  ReconcileResult, done, finalize_offloading, finalize_model, reconcile_found, reconcile,
}

-- No map has an entry for the key `k`, nor for the model `b` of Beamlit.
pub record IsForgotten {W : Type 0} (k b : Text) (r : Reconciler W) : Type 0 where
  pub ongoing : lookup k r.ongoing_offloadings ≡ none
  pub state : lookup k r.model_state ≡ none
  pub managed : lookup k r.managed_models ≡ none
  pub beamlit : lookup b r.beamlit_models ≡ none

call-IsForgotten : {W A : Type 0} (k b : Text) (m : Act W A) → Keeps (IsForgotten k b) (call m)
call-IsForgotten k b m = record {
  at = λ r h. record {
    ongoing = h.ongoing;
    state = h.state;
    managed = h.managed;
    beamlit = h.beamlit;
  };
}

module _ {W M B : Type 0} (d : Deps W M B) where
  finalize_offloading-IsForgotten :
      (k b : Text) (o : Option (OffloadingConfig M)) (m : ModelDeployment M)
      → Keeps (IsForgotten k b) (finalize_offloading d o m)
  unfolding finalize_offloading
  finalize_offloading-IsForgotten k b none m = search keeps_rules
  finalize_offloading-IsForgotten k b (some c) m = search (keeps_rules, call-IsForgotten) depth 12

  finalize_model_forgets :
      (m : ModelDeployment M) (r : Reconciler W)
      → IsForgotten (key m) (join_key m.spec.environment m.spec.model) (finalize_model d m r).1
  unfolding finalize_model
  finalize_model_forgets m r =
      (finalize_offloading-IsForgotten (key m) (join_key m.spec.environment m.spec.model)
          m.spec.offloading_config m).at
        (record r {
          ongoing_offloadings = delete (key m) r.ongoing_offloadings;
          model_state = delete (key m) r.model_state;
          managed_models = delete (key m) r.managed_models;
          beamlit_models = delete (join_key m.spec.environment m.spec.model) r.beamlit_models;
        })
        (record {
          ongoing = lookup-delete_self (key m) r.ongoing_offloadings;
          state = lookup-delete_self (key m) r.model_state;
          managed = lookup-delete_self (key m) r.managed_models;
          beamlit = lookup-delete_self (join_key m.spec.environment m.spec.model) r.beamlit_models;
        })

  abbrev finish :
      ModelDeployment M → Result (Unit {0}) × Reconciler W → Result ReconcileResult × Reconciler W
  finish m x = (do (λ _. x); call (d.update_model (d.remove_finalizer m)); pure done) x.1

  finish-IsForgotten :
      (k b : Text) (m : ModelDeployment M) (x : Result (Unit {0}) × Reconciler W)
      → IsForgotten k b x.1
      → IsForgotten k b (finish m x).1
  finish-IsForgotten k b m (ok tt, r) h =
      (Keeps-bind _ _ (call-IsForgotten k b (d.update_model (d.remove_finalizer m)))
          (λ _. Keeps-pure done)).at
        r h
  finish-IsForgotten k b m (err e, r) h = h
  finish-IsForgotten k b m (panic, r) h = h

  module _ (m : ModelDeployment M) (namespace name : Text) (r : Reconciler W) (w : W)
      (read : d.get_model namespace name r.world ≡ (ok m, w))
      (ours : d.contains_finalizer m ≡ true) where
    reconcile-deleting :
        m.deleting ≡ true
        → reconcile d namespace name r ≡ finish m (finalize_model d m (record r { world = w }))
    unfolding reconcile reconcile_found
    reconcile-deleting gone = rw read (simp (ours, gone))

    -- A reconciliation that reads the resource, and finds it being deleted and with the finalizer of
    -- the controller, leaves none of its four maps with an entry for it: not under the key of the
    -- resource, nor under the environment and the model that its specification names at that time.
    -- This holds also when a call to another component fails. An entry under a model that the
    -- specification named before is not spoken of.
    pub deletion_forgets :
        m.deleting ≡ true
        → IsForgotten
            (key m)
            (join_key m.spec.environment m.spec.model)
            (reconcile d namespace name r).1
    deletion_forgets gone = rw (reconcile-deleting gone) (
        finish-IsForgotten (key m) (join_key m.spec.environment m.spec.model) m _
          (finalize_model_forgets m (record r { world = w })))

    -- Deleting a resource without an offloading configuration does nothing outside the controller
    -- but take the finalizer off the resource: the model is not deleted on Beamlit.
    pub deletion_without_offloading :
        m.deleting ≡ true
        → m.spec.offloading_config ≡ none
        → (reconcile d namespace name r).1.world ≡ (d.update_model (d.remove_finalizer m) w).1
    unfolding finalize_model finalize_offloading
    deletion_without_offloading gone bare = rw (reconcile-deleting gone) (rw bare (ground arith))
