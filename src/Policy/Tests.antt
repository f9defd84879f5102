-- ===== src/Policy/Tests.antt =====
-- The theorem on a policy that Beamlit does not answer for.
use beamlit_controller.Base.{
  lookup, true, false, [], ◌∷◌, bytes, pos, Act, ok, err, failure, pure, raise, ◌≡◌, refl, Text,
}
use beamlit_controller.Beamlit.Types.{Sdk}
use beamlit_controller.Beamlit.Client.{create_or_update_policy}
use beamlit_controller.Policy.{
  Policy, location, PolicyReconciler, Policies, finished, create_or_update, reconcile,
}
use beamlit_controller.Policy.Retry.{named, failed_is_dropped}

abbrev europe : Policy
europe = record {
  namespace = bytes "n";
  name = bytes "europe";
  generation = pos 1;
  deleting = false;
  finalizers = bytes "policy.beamlit.com/finalizer" ∷ [];
  display_name = bytes "Europe";
  type = location;
  locations = record { name = bytes "eu"; type = bytes "continent" } ∷ [];
  flavors = [];
  workspace = [];
}

abbrev holding : Policies (Unit {0})
holding = record {
  get_policy = λ n. pure europe;
  update_policy = λ p. pure tt;
  update_status = λ p. pure tt;
  contains_finalizer = λ p. true;
  add_finalizer = λ p. p;
  remove_finalizer = λ p. p;
}

abbrev down : {A : Type 0} → Act (Unit {0}) A
down = raise (failure "timeout")

abbrev unreachable : Sdk (Unit {0}) Text
unreachable = record {
  get_model = λ n e. down;
  create_model = λ m. down;
  update_model = λ n m. down;
  delete_model = λ n e. down;
  get_policy = λ n. down;
  create_policy = λ p. down;
  update_policy = λ n p. down;
  delete_policy = λ n. down;
  decode_model = λ t. err (failure "json");
  decode_policy = λ t. err (failure "json");
}

abbrev empty : PolicyReconciler (Unit {0})
empty = record { managed_policies = []; world = tt }

not_sent : (create_or_update holding unreachable europe empty).0 ≡ err (failure "timeout")
unfolding create_or_update lookup create_or_update_policy
not_sent = refl

failed_is_dropped_example :
    ((reconcile holding unreachable (named holding unreachable europe) empty).0
      ≡ err (failure "timeout"))
    × (reconcile holding unreachable
          (named holding unreachable europe)
          (reconcile holding unreachable (named holding unreachable europe) empty).1
        ≡ (ok finished, (reconcile holding unreachable (named holding unreachable europe) empty).1))
failed_is_dropped_example =
    failed_is_dropped holding unreachable europe refl refl (λ w. refl) (λ w. refl)
      (failure "timeout") empty not_sent (λ h. cc)
