-- ===== src/Metric/Target.antt =====
-- isMetricReached of internal/informers/metric/kubernetes_helper.go.
use beamlit_controller.Base.{
  ℕ, suc, ◌*◌, ◌/◌, ◌≤◌, ◌<◌, ◌^◌, Bool, true, Option, none, some, List, map, ℤ, pos, leb_ℤ, Result,
  ok, err, panic, failure, total64, div64, sum, total64-sum, div64-pos, ◌≡◌, ◌↔◌, arith,
}
use native.Mathlib.Nat.{le-div_iff_mul-le}
use beamlit_controller.Metric.Spec.{
  Quantities, MetricTarget, MetricTargetType, utilization, value, average_value, unknown,
}

-- Whether an average that may have panicked reaches the utilization.
abbrev pub at_least : ℤ → Result ℤ → Result Bool
at_least u (ok a) = ok (leb_ℤ u a)
at_least u (err e) = err e
at_least u panic = panic

-- The nil test of AverageUtilization.
abbrev pub reaches_utilization : ℤ → List ℤ → Option ℤ → Result Bool
reaches_utilization replicas metrics none = err (failure "averageUtilization is nil")
reaches_utilization replicas metrics (some u) =
    at_least u (div64 (total64 (pos 0) metrics) replicas)

module _ {Q : Type 0} (q : Quantities Q) where
  -- q.CmpInt64(v) >= 0, where a nil quantity panics
  abbrev pub covers : Option Q → ℤ → Result Bool
  covers none v = panic
  covers (some x) v = ok (leb_ℤ (pos 0) (q.cmp_int64 x v))

  abbrev pub covers_average : Option Q → Result ℤ → Result Bool
  covers_average x (ok a) = covers x a
  covers_average x (err e) = err e
  covers_average x panic = panic

  -- The total of the metrics, where a value is given.
  abbrev pub metric_value : Option Q → List ℤ → ℤ
  metric_value none metrics = pos 0
  metric_value (some x) metrics = total64 (pos 0) metrics

  unfoldable pub is_metric_reached_by : MetricTargetType → ℤ → MetricTarget Q → List ℤ → Result Bool
  is_metric_reached_by utilization replicas t metrics =
      reaches_utilization replicas metrics t.average_utilization
  is_metric_reached_by value replicas t metrics = covers t.value (metric_value t.value metrics)
  is_metric_reached_by average_value replicas t metrics =
      covers_average t.average_value (div64 (total64 (pos 0) metrics) replicas)
  is_metric_reached_by (unknown s) replicas t metrics = err (failure "unsupported metric type")

  unfoldable pub is_metric_reached : ℤ → MetricTarget Q → List ℤ → Result Bool
  unfolding is_metric_reached_by
  is_metric_reached replicas t metrics = is_metric_reached_by t.type replicas t metrics

  is_metric_reached-utilization :
      (n u : ℕ) (t : MetricTarget Q) (xs : List ℕ)
      → t.type ≡ utilization
      → t.average_utilization ≡ some (pos u)
      → sum xs < 2 ^ 63
      → is_metric_reached (pos (suc n)) t (map pos xs) ≡ ok (leb_ℤ (pos u) (pos (sum xs / suc n)))
  unfolding is_metric_reached
  is_metric_reached-utilization n u t xs kind target small =
      simp (kind, target, total64-sum xs small, div64-pos (sum xs) n small)

  is_metric_reached-value :
      (x : Q) (n : ℕ) (t : MetricTarget Q) (xs : List ℕ)
      → t.type ≡ value
      → t.value ≡ some x
      → sum xs < 2 ^ 63
      → is_metric_reached (pos (suc n)) t (map pos xs)
        ≡ ok (leb_ℤ (pos 0) (q.cmp_int64 x (pos (sum xs))))
  unfolding is_metric_reached
  is_metric_reached-value x n t xs kind target small = simp (kind, target, total64-sum xs small)

  ok-true : (b : Bool) → (◌≡◌ {A = Result Bool} (ok b) (ok true)) ↔ (b ≡ true)
  ok-true b = ground arith

  -- A utilization target is reached exactly if the total of the measured values is at least the
  -- target for each replica. It supposes that there is a replica, and values that are not negative
  -- and whose total is below 2 ^ 63.
  pub utilization_reached :
      (n u : ℕ) (t : MetricTarget Q) (xs : List ℕ)
      → t.type ≡ utilization
      → t.average_utilization ≡ some (pos u)
      → sum xs < 2 ^ 63
      → (is_metric_reached (pos (suc n)) t (map pos xs) ≡ ok true) ↔ (u * suc n ≤ sum xs)
  utilization_reached n u t xs kind target small =
      rw (is_metric_reached-utilization n u t xs kind target small) (
        λ h.
            (le-div_iff_mul-le {k = suc n} (omega arith)).0
              (ground (arith, (ok-true (leb_ℤ (pos u) (pos (sum xs / suc n)))).0 h)),
        λ h.
            (ok-true _).1
              (let k = (le-div_iff_mul-le {k = suc n} (omega arith)).1 h in ground arith),
      )

  -- A value target is reached exactly if the total of the measured values is at most the target,
  -- where a utilization target is reached if they are at least as high. It supposes that CmpInt64
  -- compares the amount of a quantity with its argument, and values that are not negative and whose
  -- total is below 2 ^ 63.
  pub value_reached :
      (amount : Q → ℕ) (x : Q) (n : ℕ) (t : MetricTarget Q) (xs : List ℕ)
      → ((y : Q) (v : ℕ) → (leb_ℤ (pos 0) (q.cmp_int64 y (pos v)) ≡ true) ↔ (v ≤ amount y))
      → t.type ≡ value
      → t.value ≡ some x
      → sum xs < 2 ^ 63
      → (is_metric_reached (pos (suc n)) t (map pos xs) ≡ ok true) ↔ (sum xs ≤ amount x)
  value_reached amount x n t xs compares kind target small =
      rw (is_metric_reached-value x n t xs kind target small) (
        λ h. (compares x (sum xs)).0 ((ok-true _).0 h),
        λ h. (ok-true _).1 ((compares x (sum xs)).1 h),
      )
