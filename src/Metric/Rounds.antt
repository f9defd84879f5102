-- ===== src/Metric/Rounds.antt =====
-- The rounds of a watcher, from the condition that it starts with.
use beamlit_controller.Base.{
  All, All-concat, ℕ, zero, suc, Bool, true, not, Option, none, some, List, [], ◌∷◌, Text, ℤ, Act,
  Result, Error, ok, err, panic, ◌≡◌, refl, pure, lift, modify, ◌>>=◌, ◌>>◌,
}
use beamlit_controller.Base.Keeps.{Keeps, Keeps-bind, Keeps-catch, keeps_rules}
use beamlit_controller.Metric.Spec.{
  Quantities, MetricSourceType, container_resource, external, object, pods, resource, other,
  MetricTarget, MetricSpec, ResourceMetricSource, is_metric_spec_equal,
}
use beamlit_controller.Metric.Spec.Per.{IsPer}
use beamlit_controller.Metric.Spec.Equal.{same_spec_per}
use beamlit_controller.Metric.Spec.Complete.{IsComplete, spec_equal_refl}
use beamlit_controller.Metric.Condition.Members.{update_keeps}
use beamlit_controller.Metric.Condition.{Condition, new_condition, is_empty, update}
use beamlit_controller.Metric.Condition.Latest.{IsDistinct}
use beamlit_controller.Metric.Condition.Settled.{IsConsistent, update_lem}
use beamlit_controller.Metric.Replicas.{PodMetric, Cluster}
use beamlit_controller.Metric.Watcher.{
  Watching, Watcher, ask, note, judge, judge_utilization, judge_resource, check_source, check_one,
  check_all, report, check_metric, round,
}

module _ {Q W : Type 0} (q : Quantities Q) (k : Cluster W) (w : Watcher Q) where
  unfoldable pub rounds : ℕ → Act (Watching Q W) (Unit {0})
  rounds zero = pure tt
  rounds (suc n) = do round q k w; rounds n

module _ {Q W : Type 0} (q : Quantities Q) (k : Cluster W) (w : Watcher Q)
    (per : IsPer q.equal) where
  -- The comparison finds the metric equal to itself.
  abbrev pub IsSelf : MetricSpec Q → Type 0
  IsSelf m = is_metric_spec_equal q m m ≡ ok true

  -- What holds between two rounds.
  pub record IsTracking (s : Watching Q W) : Type 0 where
    pub consistent : IsConsistent (is_metric_spec_equal q) s.condition
    pub self : All IsSelf s.condition.current
    pub named : All (λ m. m.model_name ≡ w.model) s.sent

  ask-IsTracking : {A : Type 0} (m : Act W A) → Keeps IsTracking (ask m)
  ask-IsTracking m = record {
    at = λ s h. record { consistent = h.consistent; self = h.self; named = h.named };
  }

  noted :
      (metric : MetricSpec Q) (reached : Bool) (s : Watching Q W)
      → IsSelf metric
      → IsTracking s
      → (r : Result (Condition (MetricSpec Q)))
      → update (is_metric_spec_equal q) s.condition metric reached (k.now s.world) ≡ r
      → IsTracking
          ((do updated ← lift r; modify (λ (t : Watching Q W). record t { condition = updated }))
            s).1
  noted metric reached s is h (ok d) e =
      let per' = same_spec_per q per in
      record {
        consistent =
            (update_lem (is_metric_spec_equal q) per'.0 per'.1 s.condition d metric reached
              (k.now s.world) h.consistent e).0;
        self =
            update_keeps (is_metric_spec_equal q) IsSelf s.condition d metric reached
              (k.now s.world) is h.self e;
        named = h.named;
      }
  noted metric reached s is h (err x) e = h
  noted metric reached s is h panic e = h

  note-IsTracking :
      (metric : MetricSpec Q) (reached : Bool)
      → IsSelf metric
      → Keeps IsTracking (note q k w metric reached)
  unfolding note
  note-IsTracking metric reached is = record { at = λ s h. noted metric reached s is h _ refl }

  judge-IsTracking :
      (metric : MetricSpec Q) (n : ℤ) (t : MetricTarget Q) (xs : List ℤ)
      → IsSelf metric
      → Keeps IsTracking (judge q k w metric n t xs)
  unfolding judge
  judge-IsTracking metric n t xs is = search (keeps_rules, note-IsTracking)

  judge_utilization-IsTracking :
      (metric : MetricSpec Q) (n : ℤ) (selector name : Text) (t : ℤ) (xs : List PodMetric)
      → IsSelf metric
      → Keeps IsTracking (judge_utilization q k w metric n selector name t xs)
  unfolding judge_utilization
  judge_utilization-IsTracking metric n selector name t xs is =
      search (keeps_rules, ask-IsTracking, note-IsTracking) depth 10

  judge_resource-IsTracking :
      (metric : MetricSpec Q) (n : ℤ) (selector : Text) (source : ResourceMetricSource Q)
      (o : Option ℤ) (xs : List PodMetric)
      → IsSelf metric
      → Keeps IsTracking (judge_resource q k w metric n selector source o xs)
  unfolding judge_resource
  judge_resource-IsTracking metric n selector source none xs is =
      search (keeps_rules, judge-IsTracking)
  judge_resource-IsTracking metric n selector source (some t) xs is =
      judge_utilization-IsTracking metric n selector source.name t xs is

  check_source-IsTracking :
      (t : MetricSourceType) (metric : MetricSpec Q) (n : ℤ) (selector : Text)
      → IsSelf metric
      → Keeps IsTracking (check_source q k w t metric n selector)
  unfolding check_source
  check_source-IsTracking object metric n selector is =
      search (keeps_rules, ask-IsTracking, judge-IsTracking) depth 10
  check_source-IsTracking pods metric n selector is =
      search (keeps_rules, ask-IsTracking, judge-IsTracking) depth 10
  check_source-IsTracking resource metric n selector is =
      search (keeps_rules, ask-IsTracking, judge_resource-IsTracking) depth 10
  check_source-IsTracking container_resource metric n selector is =
      search (keeps_rules, ask-IsTracking, judge-IsTracking) depth 10
  check_source-IsTracking external metric n selector is =
      search (keeps_rules, ask-IsTracking, judge-IsTracking) depth 10
  check_source-IsTracking (other s) metric n selector is = record { at = λ r h. h }

  check_one-IsTracking :
      (metric : MetricSpec Q) → IsSelf metric → Keeps IsTracking (check_one q k w metric)
  unfolding check_one
  check_one-IsTracking metric is =
      search (keeps_rules, ask-IsTracking, note-IsTracking, check_source-IsTracking) depth 10

  check_all-IsTracking :
      (ms : List (MetricSpec Q)) → All IsSelf ms → Keeps IsTracking (check_all q k w ms)
  unfolding check_all
  check_all-IsTracking [] h = search keeps_rules
  check_all-IsTracking (m ∷ ms) h =
      let one = check_one-IsTracking m h.0 in
      let rest = check_all-IsTracking ms h.1 in search keeps_rules depth 10

  report-IsTracking : (o : Option Error) → Keeps IsTracking (report q k w o)
  report-IsTracking none = search keeps_rules
  report-IsTracking (some e) = search keeps_rules

  check_metric-IsTracking : All IsSelf w.metrics → Keeps IsTracking (check_metric q k w)
  unfolding check_metric
  check_metric-IsTracking h = search (keeps_rules, check_all-IsTracking, report-IsTracking) depth 10

  round-IsTracking : All IsSelf w.metrics → Keeps IsTracking (round q k w)
  unfolding round
  round-IsTracking all =
      Keeps-catch _ _
        (Keeps-bind _ _ (check_metric-IsTracking all) λ b. record {
          at = λ s h. record {
            consistent = h.consistent;
            self = h.self;
            named = All-concat _ _ s.sent h.named refl;
          };
        })
        λ e. record {
          at = λ s h. record { consistent = h.consistent; self = h.self; named = h.named };
        }

  rounds-IsTracking : All IsSelf w.metrics → (n : ℕ) → Keeps IsTracking (rounds q k w n)
  unfolding rounds
  rounds-IsTracking all zero = search keeps_rules
  rounds-IsTracking all (suc n) =
      Keeps-bind _ _ (round-IsTracking all) (λ _. rounds-IsTracking all n)

  all-IsSelf :
      ((x : Q) → q.equal x x ≡ true)
      → (ms : List (MetricSpec Q)) → All IsComplete ms
      → All IsSelf ms
  all-IsSelf reflexive [] h = tt
  all-IsSelf reflexive (m ∷ ms) h = (spec_equal_refl q reflexive m h.0, all-IsSelf reflexive ms h.1)

  -- However many rounds a watcher of complete metric specifications makes from the condition that
  -- it starts with, and whatever the cluster answers in them: each metric among the reached ones is
  -- equal to itself, and none is equal to another of them, so that no metric stands twice among
  -- them; the condition is reached exactly if there is a reached metric, and each status that was
  -- sent on carries the watcher's model. A specification is complete if the source that its type
  -- names is given and its target has the value that its type asks for. It supposes that the
  -- equality of quantities is reflexive, symmetric and transitive.
  pub rounds_track :
      (n : ℕ) (s : Watching Q W) (window : ℤ)
      → ((x : Q) → q.equal x x ≡ true)
      → All IsComplete w.metrics
      → s.condition ≡ new_condition window
      → s.sent ≡ []
      → All (λ m. is_metric_spec_equal q m m ≡ ok true) (rounds q k w n s).1.condition.current
        × IsDistinct (is_metric_spec_equal q) (rounds q k w n s).1.condition.current
        × ((rounds q k w n s).1.condition.reached
            ≡ not (is_empty (rounds q k w n s).1.condition.current))
        × All (λ m. m.model_name ≡ w.model) (rounds q k w n s).1.sent
  unfolding new_condition
  rounds_track n s window reflexive complete fresh silent =
      let start : IsTracking s = record {
        consistent = rw fresh (record { distinct = tt; nonempty = refl });
        self = rw fresh tt;
        named = rw silent tt;
      } in
      let t = (rounds-IsTracking (all-IsSelf reflexive w.metrics complete) n).at s start in
      (t.self, t.consistent.distinct, t.consistent.nonempty, t.named)
