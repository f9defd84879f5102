-- ===== src/Controller/Sound.antt =====
-- The invariant of the reconciler's maps, and the steps that keep it.
pub mod Callbacks
pub mod Requests
pub mod Runs
use beamlit_controller.Base.{
  Bool, true, false, Option, none, some, List, [], ◌∷◌, Text, ℤ, pos, ◌≤ℤ◌, ◌≡◌, Act, arith, lookup,
  Text_Eq, refl, ok, ◌>>=◌, lookup-insert, lookup-delete, text_eq_iff,
}
use beamlit_controller.Base.Keeps.{
  Keeps, keeps_rules, Keeps-bind, Keeps-bind_ok, Keeps-catch, Keeps-if,
}
use beamlit_controller.Deployment.{ModelDeployment, OffloadingConfig, OffloadingBehavior}
use beamlit_controller.Controller.State.{
  ManagedModel, Reconciler, Deps, call, store_ongoing, delete_ongoing, store_state, delete_state,
  store_managed, delete_managed, store_beamlit, delete_beamlit, key, join_key,
}
use beamlit_controller.Controller.Callbacks.{
  percentage, with_default, remote_backend, or_default, try_notify, offload_to, on_failure,
  on_recovery, on_metric, metric_callback, health_check_callback,
}
use beamlit_controller.Controller.Watch.{
  Event, health_status, metric_status, on_health_status, on_metric_status, watch_step, watch,
}

abbrev pub IsPercentage : ℤ → Type 0
IsPercentage p = (pos 0 ≤ℤ p) × (p ≤ℤ pos 100)

pub zero_percent : IsPercentage (pos 0)
zero_percent = omega arith

pub hundred_percent : IsPercentage (pos 100)
hundred_percent = omega arith

-- An entry of the managed models.
abbrev pub IsEntry : Text → ManagedModel → Type 0
IsEntry k v = (k ≡ join_key v.namespace v.name) × (v.healthy ≡ true)

-- What the schema of the resource enforces of the percentage, where there is one.
pub record IsValid {M : Type 0} (m : ModelDeployment M) : Type 0 where
  pub in_range :
      (c : OffloadingConfig M) (b : OffloadingBehavior)
      → m.spec.offloading_config ≡ some c
      → c.behavior ≡ some b
      → IsPercentage b.percentage

module _ {W : Type 0} where
  -- Every ongoing offloading is a percentage, and every managed model stands under its own key and
  -- is marked as healthy.
  pub record IsSound (r : Reconciler W) : Type 0 where
    pub at_key : (k : Text) (p : ℤ) → lookup k r.ongoing_offloadings ≡ some p → IsPercentage p
    pub at_model : (k : Text) (v : ManagedModel) → lookup k r.managed_models ≡ some v → IsEntry k v

  pub store_ongoing-IsSound :
      (k : Text) (p : ℤ) → IsPercentage p → Keeps IsSound (store_ongoing k p)
  store_ongoing-IsSound k p h = record {
    at = λ r b. record {
      at_key = λ j q e. ground (arith, lookup-insert k j p r.ongoing_offloadings, b.at_key j q);
      at_model = b.at_model;
    };
  }

  pub delete_ongoing-IsSound : (k : Text) → Keeps IsSound (delete_ongoing k)
  delete_ongoing-IsSound k = record {
    at = λ r b. record {
      at_key = λ j q e. ground (arith, lookup-delete k j r.ongoing_offloadings, b.at_key j q);
      at_model = b.at_model;
    };
  }

  pub call-IsSound : {A : Type 0} (m : Act W A) → Keeps IsSound (call m)
  call-IsSound m = record { at = λ r b. record { at_key = b.at_key; at_model = b.at_model } }

  pub store_state-IsSound : (k : Text) (b : Bool) → Keeps IsSound (store_state k b)
  store_state-IsSound k v = record {
    at = λ r b. record { at_key = b.at_key; at_model = b.at_model };
  }

  pub delete_state-IsSound : (k : Text) → Keeps IsSound (delete_state k)
  delete_state-IsSound k = record {
    at = λ r b. record { at_key = b.at_key; at_model = b.at_model };
  }

  pub store_managed-IsSound :
      (k : Text) (v : ManagedModel) → IsEntry k v → Keeps IsSound (store_managed k v)
  store_managed-IsSound k v h = record {
    at = λ r b. record {
      at_key = b.at_key;
      at_model = λ j u e.
          ground (arith, lookup-insert k j v r.managed_models, text_eq_iff k j, b.at_model j u);
    };
  }

  pub delete_managed-IsSound : (k : Text) → Keeps IsSound (delete_managed k)
  delete_managed-IsSound k = record {
    at = λ r b. record {
      at_key = b.at_key;
      at_model = λ j u e. ground (arith, lookup-delete k j r.managed_models, b.at_model j u);
    };
  }

  pub store_beamlit-IsSound : (k v : Text) → Keeps IsSound (store_beamlit k v)
  store_beamlit-IsSound k v = record {
    at = λ r b. record { at_key = b.at_key; at_model = b.at_model };
  }

  pub delete_beamlit-IsSound : (k : Text) → Keeps IsSound (delete_beamlit k)
  delete_beamlit-IsSound k = record {
    at = λ r b. record { at_key = b.at_key; at_model = b.at_model };
  }

-- The entry that createOrUpdate makes.
pub managed_model-IsEntry :
    {M : Type 0} (m : ModelDeployment M)
    → IsEntry (key m) (record {
      namespace = m.namespace;
      name = m.name;
      healthy = true;
      last_generation = m.generation;
    })
unfolding key
managed_model-IsEntry m = (refl, refl)

pub ruleset sound_rules = (
  keeps_rules, store_ongoing-IsSound, delete_ongoing-IsSound, call-IsSound, store_state-IsSound,
  delete_state-IsSound, store_managed-IsSound, delete_managed-IsSound, store_beamlit-IsSound,
  delete_beamlit-IsSound, zero_percent, hundred_percent, managed_model-IsEntry,
)

module _ {W M : Type 0} where
  pub percentage-IsPercentage :
      (m : ModelDeployment M) (r : Reconciler W) (p : ℤ)
      → IsValid m
      → (percentage m r).0 ≡ ok p
      → IsPercentage p
  unfolding percentage
  percentage-IsPercentage m r p v h = grind (arith, v.in_range)

  pub percentage-IsSound : (m : ModelDeployment M) → Keeps (IsSound {W = W}) (percentage m)
  unfolding percentage
  percentage-IsSound m = search sound_rules

  pub with_default-IsSound : (m : ModelDeployment M) → Keeps (IsSound {W = W}) (with_default m)
  unfolding with_default
  with_default-IsSound m = search sound_rules

  -- Filling in the remote backend does not change the percentage.
  pub with_default-IsValid :
      (m n : ModelDeployment M) (r : Reconciler W)
      → IsValid m
      → (with_default m r).0 ≡ ok n
      → IsValid n
  unfolding with_default
  with_default-IsValid m n r v h = record { in_range = λ c b p q. grind (arith, v.in_range) }
