-- ===== src/Metric/Prometheus.antt =====
-- prometheus_informer.go of internal/informers/metric: the queries, the watcher and the informer.
use beamlit_controller.Base.{
  Bool, true, false, not, Option, none, some, List, [], ◌∷◌, ◌++◌, Text, Text_Eq, bytes, Dict,
  insert, ℤ, Act, Result, ok, err, panic, Error, pure, lift, gets, deref, crash, catch, modify,
  ◌>>=◌, ◌>>◌, ◌==◌, if◌then◌else◌,
}
use beamlit_controller.Metric.Spec.{
  Quantities, MetricSourceType_Eq, external, MetricTarget, MetricSpec, ExternalMetricSource,
  is_metric_spec_equal,
}
use beamlit_controller.Metric.Condition.{Condition, new_condition, update}
use beamlit_controller.Metric.Watcher.{MetricStatus}

pub data ValueKind : Type 0 where
  average count : ValueKind

pub record QueryBuilder : Type 0 where
  pub metric_name : Text
  pub kind : Option ValueKind
  pub selectors : Dict Text Text
  pub has_window : Bool

unfoldable pub with_selector : Text → Text → QueryBuilder → QueryBuilder
with_selector k v b = record b { selectors = insert k v b.selectors }

abbrev pub with_kind : ValueKind → QueryBuilder → QueryBuilder
with_kind k b = record b { kind = some k }

-- The window is always a minute.
abbrev pub with_window : QueryBuilder → QueryBuilder
with_window b = record b { has_window = true }

-- The text of the window, 0s where none is set.
abbrev pub window_text : Bool → Text
window_text true = bytes "1m0s"
window_text false = bytes "0s"

-- The selectors one after another, in the order in which the map gives them.
unfoldable pub add_selectors : Dict Text Text → Text → Text
add_selectors [] query = query
add_selectors ((k, v) ∷ rest) query =
    add_selectors rest (query ++ bytes "{" ++ k ++ bytes "=\"" ++ v ++ bytes "\"}")

abbrev pub rated : Option ValueKind → Text → Text → Text
rated (some average) window query = bytes "rate(" ++ query ++ bytes "[" ++ window ++ bytes "])"
rated _ window query = query

unfoldable pub build : QueryBuilder → Text
unfolding add_selectors
build b = rated b.kind (window_text b.has_window) (add_selectors b.selectors b.metric_name)

-- What Prometheus answers; `F` are the floating-point numbers.
pub data QueryResult (F : Type 0) : Type 0 where
  vector : List F → QueryResult F
  scalar matrix nothing unsupported : QueryResult F

pub record Prometheus (Q F W : Type 0) : Type 0 where
  pub query : Text → Act W (QueryResult F)
  pub now : W → ℤ
  -- MatchLabels of a selector
  pub match_labels : Text → Dict Text Text
  -- AsApproximateFloat64, the number 0, and a > b
  pub approximate : Q → F
  pub zero_value : F
  pub is_above : F → F → Bool
  -- the scalar that is decoded from the JSON of the type of a scalar result
  pub decode_type : Result F

-- A watcher's state; what it was set up with is its model and its metrics.
pub record PrometheusWatching (Q W : Type 0) : Type 0 where
  pub condition : Condition (MetricSpec Q)
  pub last_reached : Bool
  pub sent : List MetricStatus
  pub world : W

pub record PrometheusWatcher (Q : Type 0) : Type 0 where
  pub model : Text
  pub metrics : List (MetricSpec Q)

-- The watcher as it is registered.
abbrev pub started : {Q W : Type 0} → ℤ → W → PrometheusWatching Q W
started window world = record {
  condition = new_condition window;
  last_reached = false;
  sent = [];
  world = world;
}

module _ {Q W A : Type 0} where
  abbrev pub in_world : Act W A → Act (PrometheusWatching Q W) A
  in_world m s = ((m s.world).0, record s { world = (m s.world).1 })

-- Whether the watcher goes on to what follows the switch, or to the next metric.
pub data Next : Type 0 where
  on skip : Next

module _ {Q : Type 0} where
  abbrev pub is_given : Option Q → Bool
  is_given none = false
  is_given (some a) = true

  abbrev pub kind_of_target : MetricTarget Q → QueryBuilder → QueryBuilder
  kind_of_target t b =
      let a = if is_given t.average_value then with_kind average b else b in
      if is_given t.value then with_kind count a else a

unfoldable pub all_selectors : Dict Text Text → QueryBuilder → QueryBuilder
unfolding with_selector
all_selectors [] b = b
all_selectors ((k, v) ∷ rest) b = all_selectors rest (with_selector k v b)

abbrev pub same : Bool → Bool → Bool
same true b = b
same false b = not b

module _ {Q F W : Type 0} (q : Quantities Q) (p : Prometheus Q F W) where
  abbrev pub labels_of : Option Text → Dict Text Text
  labels_of none = []
  labels_of (some s) = p.match_labels s

  unfoldable pub query_of : ExternalMetricSource Q → Text
  unfolding build all_selectors
  query_of e = build (
      with_window (
        kind_of_target e.target (
          all_selectors (labels_of e.metric.selector) (record {
            metric_name = e.metric.name;
            kind = none;
            selectors = [];
            has_window = false;
          }))))

  abbrev pub limit : Option Q → Option Q → F
  limit (some a) v = p.approximate a
  limit none (some v) = p.approximate v
  limit none none = p.zero_value

  abbrev pub exceeds : F → List F → Bool
  exceeds bound [] = false
  exceeds bound (x ∷ xs) = if p.is_above x bound then true else exceeds bound xs

  unfoldable pub note : MetricSpec Q → Bool → Act (PrometheusWatching Q W) (Unit {0})
  note metric reached = do
    now ← gets (λ s. p.now s.world)
    condition ← gets (λ s. s.condition)
    updated ← lift (update (is_metric_spec_equal q) condition metric reached now)
    modify (λ s. record s { condition = updated })

  abbrev pub on_scalar : MetricSpec Q → F → Result F → Act (PrometheusWatching Q W) Next
  on_scalar metric bound (ok x) =
      if p.is_above x bound
      then (do note metric true; pure skip)
      else (do note metric false; pure on)
  on_scalar metric bound (err e) = pure skip
  on_scalar metric bound panic = crash

  -- The switch over the type of the result.
  unfoldable pub judge : MetricSpec Q → F → QueryResult F → Act (PrometheusWatching Q W) Next
  judge metric bound scalar = on_scalar metric bound p.decode_type
  judge metric bound (vector xs) = do note metric (exceeds bound xs); pure on
  judge metric bound matrix = pure on
  judge metric bound nothing = pure on
  judge metric bound unsupported = pure on

  module _ (w : PrometheusWatcher Q) where
    abbrev pub if_changed : Bool → Bool → Act (PrometheusWatching Q W) (Unit {0})
    if_changed true reached = pure tt
    if_changed false reached = modify (λ s. record s {
      last_reached = reached;
      sent = s.sent ++ record { model_name = w.model; reached = reached } ∷ [];
    })

    abbrev pub send : Next → Act (PrometheusWatching Q W) (Unit {0})
    send skip = pure tt
    send on = do
      reached ← gets (λ s. s.condition.reached)
      last ← gets (λ s. s.last_reached)
      if_changed (same last reached) reached

    abbrev pub query_error : Error → Act (PrometheusWatching Q W) (Option (QueryResult F))
    query_error e = pure none

    abbrev pub on_result :
        MetricSpec Q
        → ExternalMetricSource Q
        → Option (QueryResult F)
        → Act (PrometheusWatching Q W) (Unit {0})
    on_result metric e none = pure tt
    on_result metric e (some result) = do
      next ← judge metric (limit e.target.average_value e.target.value) result
      send next

    -- The loop's body. A metric of another type is passed over.
    unfoldable pub scrape_one : MetricSpec Q → Act (PrometheusWatching Q W) (Unit {0})
    unfolding query_of
    scrape_one metric = if not (metric.type == external) then pure tt else do
      e ← deref metric.external
      result ← catch (do r ← in_world (p.query (query_of e)); pure (some r)) query_error
      on_result metric e result

    unfoldable pub scrape : List (MetricSpec Q) → Act (PrometheusWatching Q W) (Unit {0})
    unfolding scrape_one
    scrape [] = pure tt
    scrape (m ∷ ms) = let rest = scrape ms in scrape_one m >> rest
