-- ===== src/Controller/Idempotence.antt =====
-- A second reconciliation of an unchanged resource changes nothing.
use beamlit_controller.Base.{
  Bool, true, false, some, Text, Act, Result, Error, ok, err, panic, ap, sym, ◌∙◌, ◌≢◌, ◌≡◌, refl,
  arith, pure, catch, ◌>>◌, Text_Eq, ℤ_Eq, ℤ, lookup, lookup-insert_self, text_eq_iff, int_eq_iff,
  Bool-cases, inl, inr,
}
use mathlib.Core.Path.{subst}
use beamlit_controller.Base.Keeps.{Keeps, Ends, Ends-bind, Ends-Keeps, keeps_rules}
use beamlit_controller.Deployment.{ModelDeployment}
use beamlit_controller.Controller.State.{
  ManagedModel, Reconciler, Deps, call, store_ongoing, delete_ongoing, store_state, delete_state,
  store_managed, delete_managed, store_beamlit, key, join_key,
}
use beamlit_controller.Controller.Callbacks.{with_default}
use beamlit_controller.Controller.Reconcile.{
  ReconcileResult, done, is_taken, is_current, tear_down, set_up, configure_offloading, install,
  create_or_update, on_create_error, reconcile_found, reconcile,
}

module _ {W : Type 0} (k v : Text) where
  -- The model on Beamlit is that of the resource `v`.
  record Holds (r : Reconciler W) : Type 0 where
    entry : lookup k r.beamlit_models ≡ some v

  Holds-call : {A : Type 0} (m : Act W A) → Keeps Holds (call m)
  Holds-call m = record { at = λ r h. record { entry = h.entry } }

  Holds-store_ongoing : (j : Text) (p : ℤ) → Keeps Holds (store_ongoing j p)
  Holds-store_ongoing j p = record { at = λ r h. record { entry = h.entry } }

  Holds-delete_ongoing : (j : Text) → Keeps Holds (delete_ongoing j)
  Holds-delete_ongoing j = record { at = λ r h. record { entry = h.entry } }

  Holds-store_state : (j : Text) (b : Bool) → Keeps Holds (store_state j b)
  Holds-store_state j b = record { at = λ r h. record { entry = h.entry } }

  Holds-delete_state : (j : Text) → Keeps Holds (delete_state j)
  Holds-delete_state j = record { at = λ r h. record { entry = h.entry } }

  Holds-store_managed : (j : Text) (m : ManagedModel) → Keeps Holds (store_managed j m)
  Holds-store_managed j m = record { at = λ r h. record { entry = h.entry } }

  Holds-delete_managed : (j : Text) → Keeps Holds (delete_managed j)
  Holds-delete_managed j = record { at = λ r h. record { entry = h.entry } }

  Holds-store_beamlit : Ends Holds (store_beamlit k v)
  Holds-store_beamlit = record {
    at = λ r a h. record { entry = lookup-insert_self k v r.beamlit_models };
  }

ruleset holds_rules = (
  keeps_rules, Holds-call, Holds-store_ongoing, Holds-delete_ongoing, Holds-store_state,
  Holds-delete_state, Holds-store_managed, Holds-delete_managed, Holds-store_beamlit, Ends-bind,
  Ends-Keeps,
)

module _ {W M B : Type 0} (d : Deps W M B) where
  configure_offloading-Holds :
      (m : ModelDeployment M) (k v : Text) → Keeps (Holds k v) (configure_offloading d m)
  unfolding configure_offloading tear_down set_up with_default
  configure_offloading-Holds m k v = search holds_rules depth 40

  install-Holds :
      (m : ModelDeployment M)
      → Ends (Holds (join_key m.spec.environment m.spec.model) m.name) (install d m)
  unfolding install
  install-Holds m = search (holds_rules, configure_offloading-Holds) depth 40

module _ {W : Type 0} where
  -- The managed model under `k` is of the generation `g`.
  record IsManaged (k : Text) (g : ℤ) (r : Reconciler W) : Type 0 where
    model : ManagedModel
    entry : lookup k r.managed_models ≡ some model
    current : model.last_generation ≡ g

  IsManaged-store_managed :
      (k : Text) (v : ManagedModel) → Ends (IsManaged k v.last_generation) (store_managed k v)
  IsManaged-store_managed k v = record {
    at = λ r a h. record {
      model = v;
      entry = lookup-insert_self k v r.managed_models;
      current = refl;
    };
  }

module _ {W M B : Type 0} (d : Deps W M B) where
  install-IsManaged : (m : ModelDeployment M) → Ends (IsManaged (key m) m.generation) (install d m)
  unfolding install
  install-IsManaged m = search (Ends-bind, IsManaged-store_managed) depth 40

  -- Nothing is left to do for a resource that is installed.
  create_or_update-installed :
      (m : ModelDeployment M) (r : Reconciler W)
      → Holds (join_key m.spec.environment m.spec.model) m.name r
      → IsManaged (key m) m.generation r
      → create_or_update d m r ≡ (ok tt, r)
  unfolding create_or_update
  create_or_update-installed m r h g = ground (
    arith,
    h.entry,
    g.entry,
    g.current,
    text_eq_iff m.name m.name,
    int_eq_iff g.model.last_generation m.generation,
  )

  create_or_update-taken :
      (m : ModelDeployment M) (r : Reconciler W)
      → is_taken (lookup (join_key m.spec.environment m.spec.model) r.beamlit_models) m.name ≡ true
      → create_or_update d m r ≡ (ok tt, r)
  unfolding create_or_update
  create_or_update-taken m r h = rw h

  create_or_update-current :
      (m : ModelDeployment M) (r : Reconciler W)
      → is_taken (lookup (join_key m.spec.environment m.spec.model) r.beamlit_models) m.name ≡ false
      → is_current (lookup (key m) r.managed_models) m.generation ≡ true
      → create_or_update d m r ≡ (ok tt, r)
  unfolding create_or_update
  create_or_update-current m r h g = rw (h, g)

  create_or_update-stale :
      (m : ModelDeployment M) (r : Reconciler W)
      → is_taken (lookup (join_key m.spec.environment m.spec.model) r.beamlit_models) m.name ≡ false
      → is_current (lookup (key m) r.managed_models) m.generation ≡ false
      → create_or_update d m r ≡ install d m r
  unfolding create_or_update
  create_or_update-stale m r h g = rw (h, g)

  unchanged :
      (m : ModelDeployment M) (r s : Reconciler W)
      → create_or_update d m r ≡ (ok tt, r)
      → create_or_update d m r ≡ (ok tt, s)
      → create_or_update d m s ≡ (ok tt, s)
  unchanged m r s p q =
      let e : r ≡ s = ap (λ (x : Result (Unit {0}) × Reconciler W). x.1) (sym p ∙ q) in
      subst (λ t. create_or_update d m t ≡ (ok tt, t)) e p

  installed :
      (m : ModelDeployment M) (r s : Reconciler W)
      → install d m r ≡ (ok tt, s)
      → create_or_update d m s ≡ (ok tt, s)
  installed m r s q =
      let returned : (install d m r).0 ≡ ok tt =
        ap (λ (x : Result (Unit {0}) × Reconciler W). x.0) q in
      let e : (install d m r).1 ≡ s = ap (λ (x : Result (Unit {0}) × Reconciler W). x.1) q in
      create_or_update-installed m s
        (subst (λ t. Holds (join_key m.spec.environment m.spec.model) m.name t) e
          ((install-Holds d m).at r tt returned))
        (subst (λ t. IsManaged (key m) m.generation t) e ((install-IsManaged m).at r tt returned))

  create_or_update_again :
      (m : ModelDeployment M) (r s : Reconciler W)
      → create_or_update d m r ≡ (ok tt, s)
      → create_or_update d m s ≡ (ok tt, s)
  create_or_update_again m r s h =
      elim (Bool-cases
        (is_taken (lookup (join_key m.spec.environment m.spec.model) r.beamlit_models) m.name)) [
          | inl taken ↦ unchanged m r s (create_or_update-taken m r taken) h
          | inr free ↦
              elim (Bool-cases (is_current (lookup (key m) r.managed_models) m.generation)) [
                | inl current ↦ unchanged m r s (create_or_update-current m r free current) h
                | inr stale ↦ installed m r s (sym (create_or_update-stale m r free stale) ∙ h)
              ]
        ]

  on_create_error-ne-done :
      (m : ModelDeployment M) (e : Error) (r s : Reconciler W)
      → on_create_error d m e r ≢ (ok done, s)
  unfolding on_create_error
  on_create_error-ne-done m e r s h = ground arith

  -- What Reconcile makes of the outcome of createOrUpdate.
  abbrev outcome :
      ModelDeployment M → Result (Unit {0}) × Reconciler W → Result ReconcileResult × Reconciler W
  outcome m x = catch (do (λ _. x); pure done) (on_create_error d m) x.1

  reconcile-live :
      (m : ModelDeployment M) (namespace name : Text) (r : Reconciler W)
      → ((w : W) → d.get_model namespace name w ≡ (ok m, w))
      → m.deleting ≡ false
      → d.contains_finalizer m ≡ true
      → reconcile d namespace name r ≡ outcome m (create_or_update d m r)
  unfolding reconcile reconcile_found
  reconcile-live m namespace name r read live ours = rw (read r.world) (simp (live, ours))

  outcome-done :
      (m : ModelDeployment M) (x : Result (Unit {0}) × Reconciler W) (s : Reconciler W)
      → outcome m x ≡ (ok done, s)
      → x ≡ (ok tt, s)
  outcome-done m (ok tt, t) s h = cc
  outcome-done m (err e, t) s h = absurd (on_create_error-ne-done m e t s h)
  outcome-done m (panic, t) s h = cc

  -- A reconciliation of an installed resource that reports no error and asks for no retry has
  -- left nothing to do: the next one, of the same resource, reports the same and changes neither
  -- the maps nor anything outside the controller. The resource has the finalizer and is not being
  -- deleted, and reading it from the cluster changes nothing.
  pub reconcile_again :
      (m : ModelDeployment M) (namespace name : Text) (r s : Reconciler W)
      → ((w : W) → d.get_model namespace name w ≡ (ok m, w))
      → m.deleting ≡ false
      → d.contains_finalizer m ≡ true
      → reconcile d namespace name r ≡ (ok done, s)
      → reconcile d namespace name s ≡ (ok done, s)
  reconcile_again m namespace name r s read live ours h =
      let q =
        outcome-done m (create_or_update d m r) s
          (sym (reconcile-live m namespace name r read live ours) ∙ h) in
      reconcile-live m namespace name s read live ours
      ∙ ap (outcome m) (create_or_update_again m r s q)
