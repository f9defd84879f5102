-- ===== src/Metric/Spec/Complete.antt =====
-- Metric specifications that are given in full are equal to themselves.
use beamlit_controller.Base.{
  Bool, true, Option, none, some, Text, Text_Eq, ℤ_Eq, eq_refl, ok, ◌≡◌, refl, ap, arith,
}
use beamlit_controller.Metric.Spec.{
  Quantities, MetricTarget, MetricSpec, MetricTargetType, MetricSourceType, utilization, value,
  average_value, unknown, container_resource, external, object, pods, resource, other,
  MetricTargetType_Eq, MetricSourceType_Eq, MetricIdentifier, both, equal_by, equal_selector,
  equal_metric_identifier, equal_metric_target, equal_container_resource, equal_external,
  equal_object, equal_pods, equal_resource, equal_sources, sources, is_metric_spec_equal,
}

abbrev pub IsGiven : {A : Type 0} → Option A → Type 0
IsGiven {A} o = (a : A) × (o ≡ some a)

-- The type of the target is one of the three, and the target has its value.
abbrev pub HasValue : {Q : Type 0} → MetricTargetType → MetricTarget Q → Type 0
HasValue utilization t = IsGiven t.average_utilization
HasValue value t = IsGiven t.value
HasValue average_value t = IsGiven t.average_value
HasValue (unknown s) t = ⊥

-- The source is given, with the value of its target.
abbrev pub IsFull : {A Q : Type 0} → (A → MetricTarget Q) → Option A → Type 0
IsFull {A} target o = (a : A) × (o ≡ some a) × HasValue (target a).type (target a)

abbrev pub HasSource : {Q : Type 0} → MetricSourceType → MetricSpec Q → Type 0
HasSource container_resource m = IsFull (λ a. a.target) m.container_resource
HasSource external m = IsFull (λ a. a.target) m.external
HasSource object m = IsFull (λ a. a.target) m.object
HasSource pods m = IsFull (λ a. a.target) m.pods
HasSource resource m = IsFull (λ a. a.target) m.resource
HasSource (other s) m = ⊥

-- The type of the specification is one of the five, and the source that it names is given.
abbrev pub IsComplete : {Q : Type 0} → MetricSpec Q → Type 0
IsComplete m = HasSource m.type m

both_refl :
    {A : Type 0} (f : A → A → Bool)
    → ((a : A) → f a a ≡ true)
    → (o : Option A) → IsGiven o
    → both f o o ≡ true
both_refl f h o (a, e) = rw e (h a)

selector_refl : (o : Option Text) → equal_selector o o ≡ true
selector_refl none = refl
selector_refl (some t) = eq_refl t

identifier_refl : (i : MetricIdentifier) → equal_metric_identifier i i ≡ true
unfolding equal_metric_identifier
identifier_refl i = ground (arith, eq_refl i.name, selector_refl i.selector)

module _ {Q : Type 0} (q : Quantities Q) (reflexive : (x : Q) → q.equal x x ≡ true) where
  value_refl : (y : MetricTargetType) (t : MetricTarget Q) → HasValue y t → equal_by q y t t ≡ true
  value_refl utilization t h = both_refl _ eq_refl t.average_utilization h
  value_refl value t h = both_refl _ reflexive t.value h
  value_refl average_value t h = both_refl _ reflexive t.average_value h
  value_refl (unknown s) t h = absurd h

  target_refl : (t : MetricTarget Q) → HasValue t.type t → equal_metric_target q t t ≡ true
  unfolding equal_metric_target
  target_refl t h = rw (eq_refl t.type) (value_refl t.type t h)

  sources_refl :
      {A : Type 0} (f : A → A → Bool) (target : A → MetricTarget Q)
      → ((a : A) → HasValue (target a).type (target a) → f a a ≡ true)
      → (o : Option A) → IsFull target o
      → sources f o o ≡ ok true
  sources_refl f target h o (a, e, v) = rw e (ap ok (h a v))

  equal_sources_refl :
      (y : MetricSourceType) (m : MetricSpec Q) → HasSource y m → equal_sources q y m m ≡ ok true
  unfolding equal_container_resource equal_external equal_object equal_pods equal_resource
  equal_sources_refl container_resource m h =
      sources_refl _ _ (λ a v. rw (eq_refl a.name, eq_refl a.container) (target_refl a.target v))
        m.container_resource h
  equal_sources_refl external m h =
      sources_refl _ _ (λ a v. rw (identifier_refl a.metric) (target_refl a.target v)) m.external h
  equal_sources_refl object m h =
      sources_refl _ _
        (λ a v. ground (
          arith,
          eq_refl a.described_object.api_version,
          eq_refl a.described_object.kind,
          eq_refl a.described_object.name,
          identifier_refl a.metric,
          target_refl a.target v,
        ))
        m.object h
  equal_sources_refl pods m h =
      sources_refl _ _ (λ a v. rw (identifier_refl a.metric) (target_refl a.target v)) m.pods h
  equal_sources_refl resource m h =
      sources_refl _ _ (λ a v. rw (eq_refl a.name) (target_refl a.target v)) m.resource h
  equal_sources_refl (other s) m h = absurd h

  pub spec_equal_refl : (m : MetricSpec Q) → IsComplete m → is_metric_spec_equal q m m ≡ ok true
  unfolding is_metric_spec_equal
  spec_equal_refl m h = rw (eq_refl m.type) (equal_sources_refl m.type m h)
