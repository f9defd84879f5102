-- ===== src/Metric/Spec/Equal.antt =====
-- The comparison of metrics is symmetric and transitive.
use beamlit_controller.Base.{
  Bool, true, false, Option, none, some, Text, ◌==◌, ◌↔◌, Result, ok, err, panic, ap, not, refl,
  sym, ◌∙◌, if◌then◌else◌, ◌≡◌, arith, Text_Eq, ℤ_Eq, eq_sym, eq_trans, text_eq_iff,
}
use beamlit_controller.Metric.Spec.{
  ContainerResourceMetricSource, ExternalMetricSource, PodsMetricSource, ResourceMetricSource,
  Quantities, MetricTarget, MetricSpec, MetricTargetType, MetricSourceType, utilization, value,
  average_value, unknown, container_resource, external, object, pods, resource, other,
  MetricTargetType_Eq, MetricSourceType_Eq, source_type_eq_iff, equal_by, equal_selector,
  equal_metric_identifier, equal_metric_target, equal_container_resource, equal_external,
  equal_object, equal_pods, equal_resource, equal_sources, sources, is_metric_spec_equal,
}
use beamlit_controller.Metric.Condition.Latest.{same, is_true}
use beamlit_controller.Metric.Spec.Per.{
  IsPer, eq-IsPer, both-IsPer, and-IsPer, on-IsPer, sources-IsPer, by_type-IsPer,
}

equal_selector-eq : (a b : Option Text) → (equal_selector a b ≡ true) ↔ (a ≡ b)
equal_selector-eq none none = ground arith
equal_selector-eq none (some b) = ground arith
equal_selector-eq (some a) none = ground arith
equal_selector-eq (some a) (some b) = ground (arith, text_eq_iff a b)

equal_metric_identifier-IsPer : IsPer equal_metric_identifier
unfolding equal_metric_identifier
equal_metric_identifier-IsPer = record {
  symmetric = λ a b. ground (
    arith,
    eq_sym a.name b.name,
    equal_selector-eq a.selector b.selector,
    equal_selector-eq b.selector a.selector,
  );
  transitive = λ a b c p q. ground (
    arith,
    eq_trans a.name b.name c.name,
    equal_selector-eq a.selector b.selector,
    equal_selector-eq b.selector c.selector,
    equal_selector-eq a.selector c.selector,
  );
}

module _ {Q : Type 0} (q : Quantities Q) (quantities : IsPer q.equal) where
  equal_by-IsPer : (t : MetricTargetType) → IsPer (equal_by q t)
  equal_by-IsPer utilization =
      on-IsPer (λ (x : MetricTarget Q). x.average_utilization) _ (both-IsPer _ eq-IsPer)
  equal_by-IsPer value = on-IsPer (λ (x : MetricTarget Q). x.value) _ (both-IsPer _ quantities)
  equal_by-IsPer average_value =
      on-IsPer (λ (x : MetricTarget Q). x.average_value) _ (both-IsPer _ quantities)
  equal_by-IsPer (unknown s) = record { symmetric = λ a b. refl; transitive = λ a b c h k. h }

  equal_metric_target-IsPer : IsPer (equal_metric_target q)
  unfolding equal_metric_target
  equal_metric_target-IsPer =
      by_type-IsPer (λ (x : MetricTarget Q). x.type) (equal_by q) equal_by-IsPer

  equal_container_resource-IsPer : IsPer (equal_container_resource q)
  unfolding equal_container_resource
  equal_container_resource-IsPer =
      and-IsPer _ _
        (and-IsPer _ _ (on-IsPer (λ (x : ContainerResourceMetricSource Q). x.name) _ eq-IsPer)
          (on-IsPer (λ (x : ContainerResourceMetricSource Q). x.container) _ eq-IsPer))
        (on-IsPer (λ (x : ContainerResourceMetricSource Q). x.target) _ equal_metric_target-IsPer)

  equal_external-IsPer : IsPer (equal_external q)
  unfolding equal_external
  equal_external-IsPer =
      and-IsPer _ _
        (on-IsPer (λ (x : ExternalMetricSource Q). x.metric) _ equal_metric_identifier-IsPer)
        (on-IsPer (λ (x : ExternalMetricSource Q). x.target) _ equal_metric_target-IsPer)

  equal_pods-IsPer : IsPer (equal_pods q)
  unfolding equal_pods
  equal_pods-IsPer =
      and-IsPer _ _
        (on-IsPer (λ (x : PodsMetricSource Q). x.metric) _ equal_metric_identifier-IsPer)
        (on-IsPer (λ (x : PodsMetricSource Q). x.target) _ equal_metric_target-IsPer)

  equal_resource-IsPer : IsPer (equal_resource q)
  unfolding equal_resource
  equal_resource-IsPer =
      and-IsPer _ _ (on-IsPer (λ (x : ResourceMetricSource Q). x.name) _ eq-IsPer)
        (on-IsPer (λ (x : ResourceMetricSource Q). x.target) _ equal_metric_target-IsPer)

  -- The tests of the described objects, and what follows them.
  equal_object-IsPer : IsPer (equal_object q)
  unfolding equal_object
  equal_object-IsPer = record {
    symmetric = λ a b. ground (
      arith,
      eq_sym a.described_object.api_version b.described_object.api_version,
      eq_sym a.described_object.kind b.described_object.kind,
      eq_sym a.described_object.name b.described_object.name,
      equal_metric_identifier-IsPer.symmetric a.metric b.metric,
      equal_metric_target-IsPer.symmetric a.target b.target,
    );
    transitive = λ a b c p q. ground (
      arith,
      eq_trans a.described_object.api_version b.described_object.api_version
          c.described_object.api_version,
      eq_trans a.described_object.kind b.described_object.kind c.described_object.kind,
      eq_trans a.described_object.name b.described_object.name c.described_object.name,
      equal_metric_identifier-IsPer.transitive a.metric b.metric c.metric,
      equal_metric_target-IsPer.transitive a.target b.target c.target,
    );
  }

  equal_sources-IsPer : (t : MetricSourceType) → IsPer (λ a b. is_true (equal_sources q t a b))
  equal_sources-IsPer container_resource =
      on-IsPer (λ (x : MetricSpec Q). x.container_resource) _
        (sources-IsPer _ equal_container_resource-IsPer)
  equal_sources-IsPer external =
      on-IsPer (λ (x : MetricSpec Q). x.external) _ (sources-IsPer _ equal_external-IsPer)
  equal_sources-IsPer object =
      on-IsPer (λ (x : MetricSpec Q). x.object) _ (sources-IsPer _ equal_object-IsPer)
  equal_sources-IsPer pods =
      on-IsPer (λ (x : MetricSpec Q). x.pods) _ (sources-IsPer _ equal_pods-IsPer)
  equal_sources-IsPer resource =
      on-IsPer (λ (x : MetricSpec Q). x.resource) _ (sources-IsPer _ equal_resource-IsPer)
  equal_sources-IsPer (other s) = record { symmetric = λ a b. refl; transitive = λ a b c h k. h }

  same_lem :
      (a b : MetricSpec Q)
      → same (is_metric_spec_equal q) a b
        ≡ (if not (a.type == b.type) then false else is_true (equal_sources q a.type a b))
  unfolding is_metric_spec_equal
  same_lem a b = ground arith

  pub same_spec_per :
      ((a b : MetricSpec Q) → same (is_metric_spec_equal q) a b ≡ same (is_metric_spec_equal q) b a)
      × ((a b c : MetricSpec Q)
          → same (is_metric_spec_equal q) a b ≡ true
          → same (is_metric_spec_equal q) b c ≡ true
          → same (is_metric_spec_equal q) a c ≡ true)
  same_spec_per =
      let h = by_type-IsPer (λ (x : MetricSpec Q). x.type) _ equal_sources-IsPer in
      (
        λ a b. rw (same_lem a b, same_lem b a) (h.symmetric a b),
        λ a b c p r.
            rw (same_lem a c)
              (h.transitive a b c (sym (same_lem a b) ∙ p) (sym (same_lem b c) ∙ r)),
      )

  sources-sym :
      {A : Type 0} (f : A → A → Bool) (a b : Option A) → IsPer f → sources f a b ≡ sources f b a
  sources-sym f none none h = refl
  sources-sym f none (some b) h = refl
  sources-sym f (some a) none h = refl
  sources-sym f (some a) (some b) h = ap ok (h.symmetric a b)

  equal_sources-sym :
      (t : MetricSourceType) (a b : MetricSpec Q) → equal_sources q t a b ≡ equal_sources q t b a
  equal_sources-sym container_resource a b = sources-sym _ _ _ equal_container_resource-IsPer
  equal_sources-sym external a b = sources-sym _ _ _ equal_external-IsPer
  equal_sources-sym object a b = sources-sym _ _ _ equal_object-IsPer
  equal_sources-sym pods a b = sources-sym _ _ _ equal_pods-IsPer
  equal_sources-sym resource a b = sources-sym _ _ _ equal_resource-IsPer
  equal_sources-sym (other s) a b = refl

  spec_equal-sym : (a b : MetricSpec Q) → is_metric_spec_equal q a b ≡ is_metric_spec_equal q b a
  unfolding is_metric_spec_equal
  spec_equal-sym a b = ground (
    arith,
    source_type_eq_iff a.type b.type,
    source_type_eq_iff b.type a.type,
    equal_sources-sym a.type a b,
  )

is_true-ok : (r : Result Bool) → is_true r ≡ true → r ≡ ok true
is_true-ok (ok b) h = ap ok h
is_true-ok (err e) h = cc
is_true-ok panic h = cc

module _ {Q : Type 0} (q : Quantities Q) where
  -- IsMetricSpecEqual is symmetric, also in whether it panics on a source that is nil: comparing
  -- two specifications in either order ends alike. And it is transitive: where it finds `a` equal
  -- to `b` and `b` equal to `c`, it finds `a` equal to `c`, and does not panic. It supposes that
  -- the equality of quantities is symmetric and transitive.
  pub spec_equal_per :
      (per : IsPer q.equal)
      → ((a b : MetricSpec Q) → is_metric_spec_equal q a b ≡ is_metric_spec_equal q b a)
        × ((a b c : MetricSpec Q)
            → is_metric_spec_equal q a b ≡ ok true
            → is_metric_spec_equal q b c ≡ ok true
            → is_metric_spec_equal q a c ≡ ok true)
  spec_equal_per per = (
    spec_equal-sym q per,
    λ a b c p r.
        is_true-ok (is_metric_spec_equal q a c)
          ((same_spec_per q per).1 a b c (ap is_true p) (ap is_true r)),
  )
