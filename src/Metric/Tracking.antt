-- ===== src/Metric/Tracking.antt =====
-- The condition over metric specifications.
use beamlit_controller.Base.{
  All, Bool, true, false, [], ◌∷◌, ap, not, Option, List, ℤ, ok, ◌==◌, ◌≡◌, refl, Bool-cases, inl,
  inr,
}
use mathlib.Core.Path.{sym, subst}
use beamlit_controller.Metric.Spec.{
  Quantities, MetricSourceType, container_resource, external, object, pods, resource, other,
  MetricTarget, MetricSpec, MetricSourceType_Eq, source_type_eq_iff, sources, equal_sources,
  is_metric_spec_equal,
}
use beamlit_controller.Metric.Spec.Per.{IsPer}
use beamlit_controller.Metric.Spec.Equal.{same_spec_per}
use beamlit_controller.Metric.Spec.Complete.{IsFull, HasSource, IsComplete, spec_equal_refl}
use beamlit_controller.Metric.Condition.{Condition, new_condition, is_empty}
use beamlit_controller.Metric.Condition.Latest.{Observation, IsDistinct, is_true, same, contains}
use beamlit_controller.Metric.Condition.History.{observe, latest, condition_tracks_latest}
use beamlit_controller.Metric.Condition.Total.{observe_total}

module _ {Q : Type 0} (q : Quantities Q) where
  sources_total :
      {A : Type 0} (f : A → A → Bool) (target : A → MetricTarget Q) (a b : Option A)
      → IsFull target a
      → IsFull target b
      → (e : Bool) × (sources f a b ≡ ok e)
  sources_total f target a b (x, p, v) (y, r, u) = (f x y, rw (p, r))

  equal_sources_total :
      (t : MetricSourceType) (a b : MetricSpec Q)
      → HasSource t a
      → HasSource t b
      → (e : Bool) × (equal_sources q t a b ≡ ok e)
  equal_sources_total container_resource a b h k = sources_total _ _ _ _ h k
  equal_sources_total external a b h k = sources_total _ _ _ _ h k
  equal_sources_total object a b h k = sources_total _ _ _ _ h k
  equal_sources_total pods a b h k = sources_total _ _ _ _ h k
  equal_sources_total resource a b h k = sources_total _ _ _ _ h k
  equal_sources_total (other s) a b h k = (false, refl)

  equal_total :
      (a b : MetricSpec Q)
      → IsComplete a
      → IsComplete b
      → (e : Bool) × (is_metric_spec_equal q a b ≡ ok e)
  unfolding is_metric_spec_equal
  equal_total a b h k = elim (Bool-cases (a.type == b.type)) [
    | inl p ↦
        let same_type = (source_type_eq_iff a.type b.type).0 p in
        rw p (equal_sources_total a.type a b h (subst (λ t. HasSource t b) (sym same_type) k))
    | inr p ↦ (false, rw p)
  ]

  all_self :
      ((x : Q) → q.equal x x ≡ true)
      → (os : List (Observation (MetricSpec Q))) → All (λ o. IsComplete o.metric) os
      → All (λ o. same (is_metric_spec_equal q) o.metric o.metric ≡ true) os
  all_self reflexive [] h = tt
  all_self reflexive (o ∷ os) h =
      (ap is_true (spec_equal_refl q reflexive o.metric h.0), all_self reflexive os h.1)

  -- Observations of complete metric specifications, whose type names a source that is given and
  -- whose target has the value that its type asks for, are all taken up: from a new condition they
  -- lead to a condition that holds only metrics whose latest observation says that they are
  -- reached, that holds the observed ones of which this is true, each once, and that is reached
  -- exactly if it holds a metric. It supposes that the equality of quantities is reflexive,
  -- symmetric and transitive.
  pub observations_tracked :
      (window : ℤ) (os : List (Observation (MetricSpec Q)))
      → ((x : Q) → q.equal x x ≡ true)
      → IsPer q.equal
      → All (λ o. IsComplete o.metric) os
      → (d : Condition (MetricSpec Q)) × (observe (is_metric_spec_equal q) (new_condition window) os
          ≡ ok d)
        × All (λ x. latest (is_metric_spec_equal q) x false os ≡ true) d.current
        × ((n : MetricSpec Q)
            → contains (is_metric_spec_equal q) n d.current
              ≡ latest (is_metric_spec_equal q) n false os)
        × IsDistinct (is_metric_spec_equal q) d.current
        × (d.reached ≡ not (is_empty d.current))
  unfolding new_condition
  observations_tracked window os reflexive per complete =
      let (d, e) =
        observe_total (is_metric_spec_equal q) IsComplete equal_total os (new_condition window)
          complete tt in
      let (symmetric, transitive) = same_spec_per q per in
      let (held, tracks, distinct, nonempty) =
        condition_tracks_latest (is_metric_spec_equal q) symmetric transitive window os d
          (all_self reflexive os complete) e in
      (d, e, held, tracks, distinct, nonempty)
