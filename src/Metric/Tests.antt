-- ===== src/Metric/Tests.antt =====
-- The watchers at concrete metrics: quantities are natural numbers of whole units.
use beamlit_controller.Base.{
  ℕ, suc, ◌*◌, ◌≤◌, Bool, true, false, not, none, some, List, [], ◌∷◌, map, Text, bytes, text_eq,
  sum, ℤ, ◌-ℤ◌, ◌+ℤ◌, pos, negsuc, leb_ℤ, nat_eq, nat_eq_iff, failure, ok, err, ◌≡◌, ◌↔◌, refl,
  arith, All, ap, if◌then◌else◌,
}
use beamlit_controller.Metric.Spec.{
  Quantities, MetricTarget, MetricTargetType, utilization, value, resource, MetricSpec,
  is_metric_spec_equal, equal_resource, equal_metric_target,
}
use beamlit_controller.Metric.Spec.Per.{IsPer}
use beamlit_controller.Metric.Spec.Equal.{same_spec_per, spec_equal_per}
use beamlit_controller.Metric.Spec.Complete.{IsComplete, spec_equal_refl}
use beamlit_controller.Metric.Condition.{Condition, update, new_condition, is_empty, is_reached}
use beamlit_controller.Metric.Condition.Latest.{Observation, is_true, IsDistinct, same, contains}
use beamlit_controller.Metric.Condition.History.{observe, latest, condition_tracks_latest}
use beamlit_controller.Metric.Condition.Window.{IsSince, reported_is_sustained}
use beamlit_controller.Metric.Tracking.{observations_tracked}
use beamlit_controller.Metric.Target.{is_metric_reached, utilization_reached, value_reached}
use beamlit_controller.Metric.Replicas.{Cluster}
use beamlit_controller.Metric.Watcher.{Watching, Watcher}
use beamlit_controller.Metric.Rounds.{rounds, rounds_track}

abbrev compare_units : ℕ → ℤ → ℤ
compare_units x v = if leb_ℤ v (pos x) then pos 0 else negsuc 0

abbrev units : Quantities ℕ
units = record { cmp_int64 = compare_units; equal = nat_eq }

units-IsPer : IsPer nat_eq
units-IsPer = record {
  symmetric = λ a b. ground (arith, nat_eq_iff a b, nat_eq_iff b a);
  transitive = λ a b c p q. ground (arith, nat_eq_iff a b, nat_eq_iff b c, nat_eq_iff a c);
}

abbrev target_of : MetricTargetType → ℕ → MetricTarget ℕ
target_of t n = record {
  type = t;
  value = some n;
  average_value = none;
  average_utilization = some (pos n);
}

abbrev spec_of : Text → MetricSpec ℕ
spec_of name = record {
  type = resource;
  container_resource = none;
  external = none;
  object = none;
  pods = none;
  resource = some (record { name = name; target = target_of utilization 80 });
}

abbrev cpu : MetricSpec ℕ
cpu = spec_of (bytes "cpu")

abbrev memory : MetricSpec ℕ
memory = spec_of (bytes "memory")

abbrev seen : MetricSpec ℕ → Bool → ℕ → Observation (MetricSpec ℕ)
seen m b t = record { metric = m; reached = b; time = pos t }

abbrev history : List (Observation (MetricSpec ℕ))
history = seen cpu true 1 ∷ seen memory true 2 ∷ seen cpu false 3 ∷ []

spec_equal_per_example :
    ((a b : MetricSpec ℕ) → is_metric_spec_equal units a b ≡ is_metric_spec_equal units b a)
    × ((a b c : MetricSpec ℕ)
        → is_metric_spec_equal units a b ≡ ok true
        → is_metric_spec_equal units b c ≡ ok true
        → is_metric_spec_equal units a c ≡ ok true)
spec_equal_per_example = spec_equal_per units units-IsPer

units_refl : (x : ℕ) → nat_eq x x ≡ true
units_refl x = ground (arith, nat_eq_iff x x)

-- The condition that the history leads to: the memory alone is reached, and since time 1.
abbrev reached_memory : Condition (MetricSpec ℕ)
reached_memory = record {
  current = memory ∷ [];
  reached = true;
  window = pos 5;
  since_time = pos 1;
}

observed : observe (is_metric_spec_equal units) (new_condition (pos 5)) history ≡ ok reached_memory
unfolding observe new_condition update is_metric_spec_equal equal_resource text_eq bytes
    equal_metric_target
observed = refl

spec-IsComplete : (name : Text) → IsComplete (spec_of name)
spec-IsComplete name =
    (record { name = name; target = target_of utilization 80 }, refl, (pos 80, refl))

seen_self : (name : Text) → same (is_metric_spec_equal units) (spec_of name) (spec_of name) ≡ true
seen_self name = ap is_true (spec_equal_refl units units_refl (spec_of name) (spec-IsComplete name))

condition_tracks_latest_example :
    All (λ x. latest (is_metric_spec_equal units) x false history ≡ true) reached_memory.current
    × ((n : MetricSpec ℕ)
        → contains (is_metric_spec_equal units) n reached_memory.current
          ≡ latest (is_metric_spec_equal units) n false history)
    × IsDistinct (is_metric_spec_equal units) reached_memory.current
    × (reached_memory.reached ≡ not (is_empty reached_memory.current))
condition_tracks_latest_example =
    condition_tracks_latest (is_metric_spec_equal units) (same_spec_per units units-IsPer).0
      (same_spec_per units units-IsPer).1 (pos 5) history reached_memory
      (seen_self (bytes "cpu"), (seen_self (bytes "memory"), (seen_self (bytes "cpu"), tt)))
      observed

observations_tracked_example :
    (d : Condition (MetricSpec ℕ)) × (observe
        (is_metric_spec_equal units)
        (new_condition (pos 5))
        history
      ≡ ok d)
    × All (λ x. latest (is_metric_spec_equal units) x false history ≡ true) d.current
    × ((n : MetricSpec ℕ)
        → contains (is_metric_spec_equal units) n d.current
          ≡ latest (is_metric_spec_equal units) n false history)
    × IsDistinct (is_metric_spec_equal units) d.current
    × (d.reached ≡ not (is_empty d.current))
observations_tracked_example = observations_tracked units (pos 5) history units_refl units-IsPer (
  spec-IsComplete (bytes "cpu"),
  (spec-IsComplete (bytes "memory"), (spec-IsComplete (bytes "cpu"), tt)),
)

-- Two more observations of the memory, at 11 and 12, and a report at 13.
abbrev later : List (Observation (MetricSpec ℕ))
later = seen memory true 11 ∷ seen memory true 12 ∷ []

still : observe (is_metric_spec_equal units) reached_memory later ≡ ok reached_memory
unfolding observe update is_metric_spec_equal equal_resource text_eq bytes equal_metric_target
still = refl

reported : is_reached reached_memory (pos 13) ≡ true
unfolding is_reached ◌-ℤ◌
reported = refl

recently : IsSince (pos 13 -ℤ reached_memory.window) later
unfolding ◌-ℤ◌ ◌+ℤ◌
recently = (omega arith, (omega arith, tt))

reported_is_sustained_example : reached_memory.reached ≡ true
reported_is_sustained_example =
    reported_is_sustained (is_metric_spec_equal units) later reached_memory reached_memory (pos 13)
      still recently reported

utilization_reached_example :
    (is_metric_reached units (pos 2) (target_of utilization 80) (map pos (90 ∷ 75 ∷ [])) ≡ ok true)
    ↔ (80 * 2 ≤ 165)
unfolding sum
utilization_reached_example =
    utilization_reached units 1 80 (target_of utilization 80) (90 ∷ 75 ∷ []) refl refl (omega arith)

value_reached_example :
    (is_metric_reached units (pos 1) (target_of value 80) (map pos (30 ∷ 40 ∷ [])) ≡ ok true)
    ↔ (70 ≤ 80)
unfolding sum
value_reached_example =
    value_reached units (λ x. x) 80 0 (target_of value 80) (30 ∷ 40 ∷ []) (λ y v. ground arith) refl
      refl (omega arith)

-- A deployment of two replicas with one pod, whose values are 90; the world is the time.
abbrev cluster : Cluster ℕ
cluster = record {
  parse_group = λ s. ok s;
  rest_mappings = λ group kind w. (ok (kind ∷ []), suc w);
  get_scale = λ namespace mapping name w.
      (ok (record { replicas = pos 2; selector = bytes "app=x" }), suc w);
  parse_selector = λ s. ok s;
  as_selector = λ s. ok [];
  list_pods = λ namespace selector w. (
    ok (
        (record { cpu = pos 60; memory = pos 9; ephemeral_storage = pos 0; storage = pos 0 } ∷ [])
        ∷ []),
    w,
  );
  object_metric = λ name namespace o selector w. (err (failure "no metrics"), w);
  raw_metric = λ name namespace s t w. (ok [], w);
  resource_metric = λ name namespace s c w.
      (ok (record { timestamp = pos w; window = pos 1; value = pos 90 } ∷ []), suc w);
  external_metric = λ name namespace s w. (ok [], w);
  now = λ w. pos w;
}

abbrev watcher : Watcher ℕ
watcher = record {
  model = bytes "n/m";
  metrics = cpu ∷ memory ∷ [];
  scrape_interval = pos 5;
  watch_target = record {
    kind = bytes "Deployment";
    namespace = bytes "n";
    name = bytes "d";
    api_version = bytes "apps/v1";
  };
}

abbrev fresh : Watching ℕ ℕ
fresh = record { condition = new_condition (pos 5); sent = []; errors = []; world = 0 }

rounds_track_example :
    let s = (rounds units cluster watcher 3 fresh).1 in
    All (λ m. is_metric_spec_equal units m m ≡ ok true) s.condition.current
    × IsDistinct (is_metric_spec_equal units) s.condition.current
    × (s.condition.reached ≡ not (is_empty s.condition.current))
    × All (λ m. m.model_name ≡ watcher.model) s.sent
rounds_track_example =
    rounds_track units cluster watcher units-IsPer 3 fresh (pos 5) units_refl
      (spec-IsComplete (bytes "cpu"), (spec-IsComplete (bytes "memory"), tt)) refl refl
