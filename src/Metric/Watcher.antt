-- ===== src/Metric/Watcher.antt =====
-- k8sMetricWatcher of internal/informers/metric/kubernetes_informer.go: CheckMetric, one round of
-- the scraping loop, and the loop.
use text.Mathlib.Text.{◌==◌ as str_eq}
use beamlit_controller.Base.{
  Bool, false, Option, none, some, List, [], ◌∷◌, ◌++◌, map, Text, Text_Eq, ℤ, ℤ_Eq, pos, ◌+ℤ◌,
  ◌-ℤ◌, ltb_ℤ, leb_ℤ, total64, mul64, div64, Act, Error, failure, pure, raise, lift, gets, deref,
  crash, catch, modify, ◌>>=◌, ◌>>◌, ◌==◌, if◌then◌else◌,
}
use beamlit_controller.Deployment.{ObjectReference}
use beamlit_controller.Metric.Spec.{
  Quantities, MetricSourceType, container_resource, external, object, pods, resource, other,
  MetricTarget, MetricSpec, ResourceMetricSource, is_metric_spec_equal,
}
use beamlit_controller.Metric.Target.{is_metric_reached}
use beamlit_controller.Metric.Condition.{Condition, update, is_reached}
use beamlit_controller.Metric.Replicas.{
  PodMetric, Cluster, get_replicas_info, find_requested_resource,
}

pub record MetricStatus : Type 0 where
  pub model_name : Text
  pub reached : Bool

-- A watcher's condition, what it has sent to the two channels, and the cluster.
pub record Watching (Q W : Type 0) : Type 0 where
  pub condition : Condition (MetricSpec Q)
  pub sent : List MetricStatus
  pub errors : List Error
  pub world : W

-- What a watcher is set up with.
pub record Watcher (Q : Type 0) : Type 0 where
  pub model : Text
  pub metrics : List (MetricSpec Q)
  pub scrape_interval : ℤ
  pub watch_target : ObjectReference

module _ {Q W A : Type 0} where
  abbrev pub ask : Act W A → Act (Watching Q W) A
  ask m s = ((m s.world).0, record s { world = (m s.world).1 })

-- The errors that CheckMetric does not report.
unfoldable pub is_no_metrics : Error → Bool
is_no_metrics (failure s) = str_eq s "no metrics returned from resource metrics API"
is_no_metrics _ = false

unfoldable pub first_error : List Error → Option Error
unfolding is_no_metrics
first_error [] = none
first_error (e ∷ es) = if is_no_metrics e then first_error es else some e

-- The values of the pods that were measured within the last scrape interval before `now`.
unfoldable pub recent : ℤ → ℤ → List PodMetric → List ℤ
recent now interval [] = []
recent now interval (p ∷ ps) =
    let rest = recent now interval ps in
    if ltb_ℤ (now -ℤ interval) (p.timestamp +ℤ p.window) then p.value ∷ rest else rest

module _ {Q W : Type 0} (q : Quantities Q) (k : Cluster W) (w : Watcher Q) where
  -- mw.condition.update
  unfoldable pub note : MetricSpec Q → Bool → Act (Watching Q W) (Unit {0})
  note metric reached = do
    now ← gets (λ s. k.now s.world)
    condition ← gets (λ s. s.condition)
    updated ← lift (update (is_metric_spec_equal q) condition metric reached now)
    modify (λ s. record s { condition = updated })

  -- The end of each case: isMetricReached, then the update.
  unfoldable pub judge : MetricSpec Q → ℤ → MetricTarget Q → List ℤ → Act (Watching Q W) (Unit {0})
  judge metric replicas target values = do
    reached ← lift (is_metric_reached q replicas target values)
    note metric reached

  -- The average utilization in percent, against the target.
  unfoldable pub judge_utilization :
      MetricSpec Q → ℤ → Text → Text → ℤ → List PodMetric → Act (Watching Q W) (Unit {0})
  judge_utilization metric replicas selector name target usage = do
    requested ← ask (find_requested_resource k w.watch_target.namespace selector name)
    let percents = mul64 (total64 (pos 0) (map (λ p. p.value) usage)) (pos 100)
    share ← lift (div64 percents requested)
    average ← lift (div64 share replicas)
    note metric (leb_ℤ target average)

  unfoldable pub judge_resource :
      MetricSpec Q
      → ℤ
      → Text
      → ResourceMetricSource Q
      → Option ℤ
      → List PodMetric
      → Act (Watching Q W) (Unit {0})
  judge_resource metric replicas selector source (some target) usage =
      judge_utilization metric replicas selector source.name target usage
  judge_resource metric replicas selector source none usage = do
    now ← gets (λ s. k.now s.world)
    judge metric replicas source.target (recent now w.scrape_interval usage)

  -- The cases of the switch. Where the source is nil, the error's text reads through it: a panic.
  unfoldable pub check_source :
      MetricSourceType → MetricSpec Q → ℤ → Text → Act (Watching Q W) (Unit {0})
  check_source object metric replicas selector = do
    source ← deref metric.object
    metric_selector ← lift (k.as_selector source.metric.selector)
    usage ←
        ask (
          k.object_metric source.metric.name w.watch_target.namespace w.watch_target
            metric_selector)
    judge metric replicas source.target (usage ∷ [])
  check_source pods metric replicas selector = do
    source ← deref metric.pods
    metric_selector ← lift (k.as_selector source.metric.selector)
    usage ← ask (k.raw_metric source.metric.name w.watch_target.namespace selector metric_selector)
    judge metric replicas source.target (map (λ p. p.value) usage)
  check_source resource metric replicas selector = do
    source ← deref metric.resource
    usage ← ask (k.resource_metric source.name w.watch_target.namespace selector [])
    judge_resource metric replicas selector source source.target.average_utilization usage
  check_source container_resource metric replicas selector = do
    source ← deref metric.container_resource
    usage ←
        ask (k.resource_metric source.container w.watch_target.namespace selector source.container)
    judge metric replicas source.target (map (λ p. p.value) usage)
  check_source external metric replicas selector = do
    source ← deref metric.external
    metric_selector ← lift (k.as_selector source.metric.selector)
    usage ← ask (k.external_metric source.metric.name w.watch_target.namespace metric_selector)
    judge metric replicas source.target usage
  check_source (other s) metric replicas selector = crash

  -- The loop's body.
  unfoldable pub check_one : MetricSpec Q → Act (Watching Q W) (Unit {0})
  check_one metric = do
    info ← ask (get_replicas_info k w.watch_target)
    if info.0 == pos 0 then note metric false else check_source metric.type metric info.0 info.1

  -- The loop, which collects the errors.
  unfoldable pub check_all : List (MetricSpec Q) → Act (Watching Q W) (List Error)
  check_all [] = pure []
  check_all (m ∷ ms) = do
    failed ← catch (do check_one m; pure []) (λ e. pure (e ∷ []))
    others ← check_all ms
    pure (failed ++ others)

  abbrev pub report : Option Error → Act (Watching Q W) Bool
  report (some e) = raise e
  report none = gets (λ s. is_reached s.condition (k.now s.world))

  unfoldable pub check_metric : Act (Watching Q W) Bool
  check_metric = do errors ← check_all w.metrics; report (first_error errors)

  -- One round of the loop of `start`: the result or the error is sent on.
  unfoldable pub round : Act (Watching Q W) (Unit {0})
  round =
      catch
        (do
          reached ← check_metric
          modify (λ s. record s {
            sent = s.sent ++ record { model_name = w.model; reached = reached } ∷ [];
          }))
        (λ e. modify (λ s. record s { errors = s.errors ++ e ∷ [] }))
