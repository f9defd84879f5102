-- ===== src/Policy/Retry.antt =====
-- What a failure of createOrUpdate leaves for the next Reconcile of the policy.
use beamlit_controller.Base.{
  true, false, Text, Text_Eq, Dict, insert, lookup-insert_self, eq_refl, ℤ_Eq, Error, ok, err,
  conflict, not_found, failure, ◌≡◌, ◌≢◌, refl, arith, ◌∙◌,
}
use beamlit_controller.Configurer.Cluster.{NamespacedName}
use beamlit_controller.Beamlit.Types.{Sdk}
use beamlit_controller.Policy.{
  Policy, ManagedPolicyRef, PolicyReconciler, Policies, finished, create_or_update, on_error, sync,
  reconcile,
}

module _ {W T : Type 0} (k : Policies W) (b : Sdk W T) (p : Policy) where
  abbrev pub named : NamespacedName
  named = record { namespace = p.namespace; name = p.name }

  abbrev recorded : Dict Text ManagedPolicyRef → Dict Text ManagedPolicyRef
  recorded d =
      insert p.name (record { last_generated_id = p.generation; namespaced_name = named }) d

  abbrev after : Dict Text ManagedPolicyRef → W → PolicyReconciler W
  after d w = record { managed_policies = recorded d; world = w }

  -- The generation that is recorded is not sent again.
  create_or_update-recorded :
      (d : Dict Text ManagedPolicyRef) (w : W)
      → create_or_update k b p (after d w) ≡ (ok p, after d w)
  unfolding create_or_update
  create_or_update-recorded d w =
      rw
        (lookup-insert_self p.name
          (record { last_generated_id = p.generation; namespaced_name = named }) d)
        (ground (arith, eq_refl p.namespace, eq_refl p.name, eq_refl p.generation))

  sync-recorded :
      (d : Dict Text ManagedPolicyRef) (w : W)
      → sync k b named p (after d w) ≡ (ok finished, after d w)
  unfolding sync
  sync-recorded d w = rw (create_or_update-recorded d w) refl

  -- The cluster holds the policy.
  module _ (alive : p.deleting ≡ false) (owned : k.contains_finalizer p ≡ true)
      (read : (w : W) → k.get_policy named w ≡ (ok p, w))
      (written : (w : W) → (k.update_status p w).0 ≡ ok tt) where
    reconcile-sync : (r : PolicyReconciler W) → reconcile k b named r ≡ sync k b named p r
    unfolding reconcile
    reconcile-sync r = simp (read r.world, alive, owned)

    on_error-recorded :
        (e : Error) (r : PolicyReconciler W)
        → e ≢ conflict
        → on_error k b named p e r ≡ (
          err e,
          record {
            managed_policies = recorded r.managed_policies;
            world = (k.update_status p r.world).1;
          },
        )
    on_error-recorded conflict r h = absurd (h refl)
    on_error-recorded not_found r h = rw (written r.world) refl
    on_error-recorded (failure t) r h = rw (written r.world) refl

    sync-failed :
        (e : Error) (r : PolicyReconciler W)
        → (create_or_update k b p r).0 ≡ err e
        → e ≢ conflict
        → (w : W) × (d : Dict Text ManagedPolicyRef) × (sync k b named p r ≡ (err e, after d w))
    unfolding sync
    sync-failed e r failed other =
        let c = (create_or_update k b p r).1 in
        ((k.update_status p c.world).1, c.managed_policies, rw failed (on_error-recorded e c other))

    -- A policy for which createOrUpdate fails, with an error that is no conflict, is not tried
    -- again: Reconcile returns the error, so that it is called again, and that call, of the same
    -- generation, sends nothing, changes nothing and returns as if the policy was sent. It supposes
    -- that the policy is alive and has its finalizer, and that the cluster reads it back and takes
    -- its status.
    pub failed_is_dropped :
        (e : Error) (r : PolicyReconciler W)
        → (create_or_update k b p r).0 ≡ err e
        → e ≢ conflict
        → let z = reconcile k b named r in
          (z.0 ≡ err e) × (reconcile k b named z.1 ≡ (ok finished, z.1))
    failed_is_dropped e r failed other =
        let (w, d, h) = sync-failed e r failed other in
        rw (reconcile-sync r, h) (refl, reconcile-sync _ ∙ sync-recorded d w)
