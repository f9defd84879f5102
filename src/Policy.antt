-- ===== src/Policy.antt =====
-- internal/controller/policy_controller.go, with the Policy resource of api/v1alpha1/authorization
-- and helper/policy_conversion.go.
pub mod Retry
mod Tests
use beamlit_controller.Base.{
  Bool, true, false, not, Option, none, some, List, [], ◌∷◌, map, Text, Text_Eq, bytes, Dict,
  lookup, insert, delete, ℤ, ℤ_Eq, pos, lookup-insert_self, eq_refl, ◌≡◌, refl, arith, Act, Result,
  Error, ok, err, panic, conflict, not_found, failure, pure, raise, lift, gets, deref, modify,
  catch, ◌>>=◌, ◌>>◌, ◌==◌, ◌&&◌, ◌||◌, if◌then◌else◌,
}
use beamlit_controller.Configurer.Cluster.{NamespacedName, NamespacedName_Eq}
use beamlit_controller.Beamlit.Types.{Choice, RemotePolicy, Sdk}
use beamlit_controller.Beamlit.Client.{create_or_update_policy, delete_policy}

pub data PolicyType : Type 0 where
  location flavor : PolicyType
  other : Text → PolicyType

-- The resource; a location and a flavor are a name and a type.
pub record Policy : Type 0 where
  pub namespace : Text
  pub name : Text
  pub generation : ℤ
  pub deleting : Bool
  pub finalizers : List Text
  pub display_name : Text
  pub type : PolicyType
  pub locations : List Choice
  pub flavors : List Choice
  pub workspace : Text

abbrev pub to_typed : PolicyType → Policy → RemotePolicy → RemotePolicy
to_typed location p r = record r { type = some (bytes "location"); locations = some p.locations }
to_typed flavor p r = record r { type = some (bytes "flavor"); flavors = some p.flavors }
to_typed (other t) p r = r

unfoldable pub to_beamlit_policy : Policy → RemotePolicy
to_beamlit_policy p = to_typed p.type p (record {
  name = some p.name;
  display_name = some p.display_name;
  workspace = none;
  type = none;
  flavors = none;
  locations = none;
})

pub record ManagedPolicyRef : Type 0 where
  pub last_generated_id : ℤ
  pub namespaced_name : NamespacedName

pub record PolicyReconciler (W : Type 0) : Type 0 where
  pub managed_policies : Dict Text ManagedPolicyRef
  pub world : W

-- The cluster: Get, Update and Status().Update of a Policy, and controllerutil on its finalizer.
pub record Policies (W : Type 0) : Type 0 where
  pub get_policy : NamespacedName → Act W Policy
  pub update_policy : Policy → Act W (Unit {0})
  pub update_status : Policy → Act W (Unit {0})
  pub contains_finalizer : Policy → Bool
  pub add_finalizer : Policy → Policy
  pub remove_finalizer : Policy → Policy

-- What Reconcile returns besides an error.
pub data Requeue : Type 0 where
  finished requeued : Requeue

abbrev pub outside : {W A : Type 0} → Act W A → Act (PolicyReconciler W) A
outside m r = ((m r.world).0, record r { world = (m r.world).1 })

-- ref, ok := r.ManagedPolicies[policy.Name]
abbrev pub is_of_another : Policy → Option ManagedPolicyRef → Bool
is_of_another p none = false
is_of_another p (some r) =
    not (r.namespaced_name.namespace == p.namespace) || not (r.namespaced_name.name == p.name)

abbrev pub last_generated : Option ManagedPolicyRef → ℤ
last_generated none = pos 0
last_generated (some r) = r.last_generated_id

module _ {W T : Type 0} (k : Policies W) (b : Sdk W T) where
  -- It changes the status of the policy that it is given.
  unfoldable pub create_or_update : Policy → Act (PolicyReconciler W) Policy
  unfolding to_beamlit_policy
  create_or_update p = do
    ref ← gets (λ r. lookup p.name r.managed_policies)
    if is_of_another p ref
        then raise (failure "policy is already defined")
        else if last_generated ref == p.generation
        then pure p
        else do
          remote ← outside (create_or_update_policy b (to_beamlit_policy p))
          workspace ← deref remote.workspace
          pure (record p { workspace = workspace })

  unfoldable pub finalize_policy : Policy → Act (PolicyReconciler W) (Unit {0})
  finalize_policy p = outside (delete_policy b p.name)

  unfoldable pub remove : Policy → Act (PolicyReconciler W) Requeue
  unfolding finalize_policy
  remove p = if not (k.contains_finalizer p) then pure finished else do
    finalize_policy p
    modify (λ r. record r { managed_policies = delete p.name r.managed_policies })
    outside (k.update_policy (k.remove_finalizer p))
    pure finished

  -- What follows a failure of createOrUpdate.
  abbrev pub on_error : NamespacedName → Policy → Error → Act (PolicyReconciler W) Requeue
  on_error n p conflict = pure requeued
  on_error n p e = do
    outside (k.update_status p)
    modify (λ r. record r {
      managed_policies =
          insert p.name (record { last_generated_id = p.generation; namespaced_name = n })
            r.managed_policies;
    })
    raise e

  unfoldable pub sync : NamespacedName → Policy → Act (PolicyReconciler W) Requeue
  unfolding create_or_update
  sync n p = catch (do create_or_update p; pure finished) (on_error n p)

  abbrev pub reconcile_found : NamespacedName → Policy → Act (PolicyReconciler W) Requeue
  reconcile_found n p =
      if p.deleting
      then remove p
      else if not (k.contains_finalizer p)
      then (do outside (k.update_policy (k.add_finalizer p)); pure finished)
      else sync n p

  abbrev pub on_get_error : Error → Act (PolicyReconciler W) (Option Policy)
  on_get_error not_found = pure none
  on_get_error e = raise e

  abbrev pub reconcile_answer : NamespacedName → Option Policy → Act (PolicyReconciler W) Requeue
  reconcile_answer n none = pure finished
  reconcile_answer n (some p) = reconcile_found n p

  unfoldable pub reconcile : NamespacedName → Act (PolicyReconciler W) Requeue
  unfolding remove sync
  reconcile n = do
    p ← catch (do q ← outside (k.get_policy n); pure (some q)) on_get_error
    reconcile_answer n p
