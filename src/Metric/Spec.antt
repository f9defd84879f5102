-- ===== src/Metric/Spec.antt =====
-- The metric specifications of autoscaling/v2, as far as the watchers read them, and their
-- comparison: IsMetricSpecEqual of internal/informers/metric/kubernetes_helper.go.
pub mod Per
pub mod Equal
pub mod Complete
use beamlit_controller.Base.{
  Bool, true, false, not, ◌&&◌, ◌||◌, Option, none, some, Text, Text_Eq, ℤ, ℤ_Eq, Eq, ◌==◌, Result,
  ok, panic, ◌≡◌, ◌↔◌, arith, text_eq_iff, if◌then◌else◌,
}

-- resource.Quantity: CmpInt64 is negative, zero or positive, as the quantity is below, at or above
-- the number; Equal compares two quantities by value.
pub record Quantities (Q : Type 0) : Type 0 where
  pub cmp_int64 : Q → ℤ → ℤ
  pub equal : Q → Q → Bool

pub data MetricSourceType : Type 0 where
  container_resource external object pods resource : MetricSourceType
  other : Text → MetricSourceType

pub data MetricTargetType : Type 0 where
  utilization value average_value : MetricTargetType
  unknown : Text → MetricTargetType

pub record MetricTarget (Q : Type 0) : Type 0 where
  pub type : MetricTargetType
  pub value : Option Q
  pub average_value : Option Q
  pub average_utilization : Option ℤ

-- A selector stands by its printed form.
pub record MetricIdentifier : Type 0 where
  pub name : Text
  pub selector : Option Text

pub record ContainerResourceMetricSource (Q : Type 0) : Type 0 where
  pub name : Text
  pub container : Text
  pub target : MetricTarget Q

pub record ExternalMetricSource (Q : Type 0) : Type 0 where
  pub metric : MetricIdentifier
  pub target : MetricTarget Q

pub record CrossVersionObjectReference : Type 0 where
  pub api_version : Text
  pub kind : Text
  pub name : Text

pub record ObjectMetricSource (Q : Type 0) : Type 0 where
  pub described_object : CrossVersionObjectReference
  pub metric : MetricIdentifier
  pub target : MetricTarget Q

pub record PodsMetricSource (Q : Type 0) : Type 0 where
  pub metric : MetricIdentifier
  pub target : MetricTarget Q

pub record ResourceMetricSource (Q : Type 0) : Type 0 where
  pub name : Text
  pub target : MetricTarget Q

pub record MetricSpec (Q : Type 0) : Type 0 where
  pub type : MetricSourceType
  pub container_resource : Option (ContainerResourceMetricSource Q)
  pub external : Option (ExternalMetricSource Q)
  pub object : Option (ObjectMetricSource Q)
  pub pods : Option (PodsMetricSource Q)
  pub resource : Option (ResourceMetricSource Q)

abbrev pub source_type_eq : MetricSourceType → MetricSourceType → Bool
source_type_eq container_resource container_resource = true
source_type_eq external external = true
source_type_eq object object = true
source_type_eq pods pods = true
source_type_eq resource resource = true
source_type_eq (other s) (other t) = s == t
source_type_eq _ _ = false

pub source_type_eq_iff : (a b : MetricSourceType) → (source_type_eq a b ≡ true) ↔ (a ≡ b)
source_type_eq_iff (other s) (other t) = ground (arith, text_eq_iff s t)
source_type_eq_iff container_resource _ = ground arith
source_type_eq_iff _ _ = ground arith

instance abbrev pub MetricSourceType_Eq : Eq MetricSourceType
MetricSourceType_Eq = record { equals = source_type_eq; equals_iff = source_type_eq_iff }

abbrev pub target_type_eq : MetricTargetType → MetricTargetType → Bool
target_type_eq utilization utilization = true
target_type_eq value value = true
target_type_eq average_value average_value = true
target_type_eq (unknown s) (unknown t) = s == t
target_type_eq _ _ = false

pub target_type_eq_iff : (a b : MetricTargetType) → (target_type_eq a b ≡ true) ↔ (a ≡ b)
target_type_eq_iff (unknown s) (unknown t) = ground (arith, text_eq_iff s t)
target_type_eq_iff utilization _ = ground arith
target_type_eq_iff _ _ = ground arith

instance abbrev pub MetricTargetType_Eq : Eq MetricTargetType
MetricTargetType_Eq = record { equals = target_type_eq; equals_iff = target_type_eq_iff }

-- a != nil && b != nil && f(*a, *b)
abbrev pub both : {A : Type 0} → (A → A → Bool) → Option A → Option A → Bool
both f (some a) (some b) = f a b
both f _ _ = false

-- a.Selector.String() == b.Selector.String(), once the tests for nil are made
abbrev pub equal_selector : Option Text → Option Text → Bool
equal_selector none none = true
equal_selector (some a) (some b) = a == b
equal_selector _ _ = false

unfoldable pub equal_metric_identifier : MetricIdentifier → MetricIdentifier → Bool
equal_metric_identifier a b =
    if not (a.name == b.name) then false else equal_selector a.selector b.selector

-- f(*a, *b): a nil pointer panics.
abbrev pub sources : {A : Type 0} → (A → A → Bool) → Option A → Option A → Result Bool
sources f (some a) (some b) = ok (f a b)
sources f _ _ = panic

module _ {Q : Type 0} (q : Quantities Q) where
  abbrev pub equal_by : MetricTargetType → MetricTarget Q → MetricTarget Q → Bool
  equal_by utilization a b = both (λ x y. x == y) a.average_utilization b.average_utilization
  equal_by value a b = both q.equal a.value b.value
  equal_by average_value a b = both q.equal a.average_value b.average_value
  equal_by (unknown s) a b = false

  unfoldable pub equal_metric_target : MetricTarget Q → MetricTarget Q → Bool
  equal_metric_target a b = if not (a.type == b.type) then false else equal_by a.type a b

  unfoldable pub equal_container_resource :
      ContainerResourceMetricSource Q → ContainerResourceMetricSource Q → Bool
  equal_container_resource a b =
      a.name == b.name && a.container == b.container && equal_metric_target a.target b.target

  unfoldable pub equal_external : ExternalMetricSource Q → ExternalMetricSource Q → Bool
  equal_external a b =
      equal_metric_identifier a.metric b.metric && equal_metric_target a.target b.target

  unfoldable pub equal_object : ObjectMetricSource Q → ObjectMetricSource Q → Bool
  equal_object a b =
      if not (a.described_object.api_version == b.described_object.api_version)
        || not (a.described_object.kind == b.described_object.kind)
        || not (a.described_object.name == b.described_object.name)
      then false
      else equal_metric_identifier a.metric b.metric && equal_metric_target a.target b.target

  unfoldable pub equal_pods : PodsMetricSource Q → PodsMetricSource Q → Bool
  equal_pods a b =
      equal_metric_identifier a.metric b.metric && equal_metric_target a.target b.target

  unfoldable pub equal_resource : ResourceMetricSource Q → ResourceMetricSource Q → Bool
  equal_resource a b = a.name == b.name && equal_metric_target a.target b.target

  abbrev pub equal_sources : MetricSourceType → MetricSpec Q → MetricSpec Q → Result Bool
  equal_sources container_resource a b =
      sources equal_container_resource a.container_resource b.container_resource
  equal_sources external a b = sources equal_external a.external b.external
  equal_sources object a b = sources equal_object a.object b.object
  equal_sources pods a b = sources equal_pods a.pods b.pods
  equal_sources resource a b = sources equal_resource a.resource b.resource
  equal_sources (other s) a b = ok false

  unfoldable pub is_metric_spec_equal : MetricSpec Q → MetricSpec Q → Result Bool
  is_metric_spec_equal a b = if not (a.type == b.type) then ok false else equal_sources a.type a b
