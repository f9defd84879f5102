-- ===== src/Metric/Registry.antt =====
-- The informers of internal/informers/metric, which hold a watcher for each model:
-- k8sMetricInformer of kubernetes_informer.go and PrometheusMetricInformer of
-- prometheus_informer.go. A goroutine that a call starts is one more entry of a list, or a step of
-- its own.
use beamlit_controller.Base.{
  ℕ, suc, Bool, true, false, Option, none, some, List, [], ◌∷◌, ◌++◌, map, Text, Text_Eq, Dict,
  lookup, insert, delete, ℤ, Act, pure, gets, modify, crash, ◌>>=◌, ◌>>◌, if◌then◌else◌,
}
use beamlit_controller.Deployment.{ObjectReference}
use beamlit_controller.Metric.Spec.{MetricSpec}
use beamlit_controller.Metric.Condition.{Condition, new_condition}
use beamlit_controller.Metric.Watcher.{Watcher}
use beamlit_controller.Metric.Prometheus.{PrometheusWatcher}

-- A watcher in the map; `cancel` says that its goroutine has set the function.
pub record MetricEntry (Q : Type 0) : Type 0 where
  pub watcher : Watcher Q
  pub condition : Condition (MetricSpec Q)
  pub cancel : Bool

pub record MetricInformer (Q : Type 0) : Type 0 where
  pub watchers : Dict Text (MetricEntry Q)
  pub is_closed : Bool

module _ {Q : Type 0} where
  -- value.cancel(), then the deletion; a function that is not set yet is nil.
  abbrev pub cancel_watcher : Text → Option (MetricEntry Q) → Act (MetricInformer Q) (Unit {0})
  cancel_watcher model none = pure tt
  cancel_watcher model (some e) =
      if e.cancel then modify (λ k. record k { watchers = delete model k.watchers }) else crash

  unfoldable pub unregister : Text → Act (MetricInformer Q) (Unit {0})
  unregister model = do entry ← gets (λ k. lookup model k.watchers); cancel_watcher model entry

  unfoldable pub register :
      Text → List (MetricSpec Q) → ObjectReference → ℤ → ℤ → Act (MetricInformer Q) (Unit {0})
  unfolding unregister
  register model metrics resource interval window = do
    unregister model
    modify (λ k. record k {
      watchers =
          insert model
            (record {
              watcher = record {
                model = model;
                metrics = metrics;
                scrape_interval = interval;
                watch_target = resource;
              };
              condition = new_condition window;
              cancel = false;
            })
            k.watchers;
    })

  abbrev pub all_started : Dict Text (MetricEntry Q) → Bool
  all_started [] = true
  all_started ((n, e) ∷ rest) = if e.cancel then all_started rest else false

  -- Stop: every watcher is cancelled and stays in the map, and the channels are closed; closing them
  -- once more panics.
  unfoldable pub stop : Act (MetricInformer Q) (Unit {0})
  stop = do
    started ← gets (λ k. all_started k.watchers)
    closed ← gets (λ k. k.is_closed)
    if started
        then (if closed then crash else modify (λ k. record k { is_closed = true }))
        else crash

-- The stop channels are numbered in the order in which they are made. `running` are the goroutines,
-- each with its model and the channel that it waits for.
pub record PrometheusInformer (Q : Type 0) : Type 0 where
  pub watchers : Dict Text (PrometheusWatcher Q)
  pub stop_chs : Dict Text ℕ
  pub running : List (Text × ℕ)
  pub closed : List ℕ
  pub next : ℕ

module _ {Q : Type 0} where
  unfoldable pub register_prometheus :
      Text → List (MetricSpec Q) → Act (PrometheusInformer Q) (Unit {0})
  register_prometheus model metrics = modify (λ p. record p {
    watchers = insert model (record { model = model; metrics = metrics }) p.watchers;
    stop_chs = insert model p.next p.stop_chs;
    running = p.running ++ (model, p.next) ∷ [];
    next = suc p.next;
  })

  abbrev pub close_channel : Text → Option ℕ → Act (PrometheusInformer Q) (Unit {0})
  close_channel model none = pure tt
  close_channel model (some ch) = modify (λ p. record p {
    closed = p.closed ++ ch ∷ [];
    stop_chs = delete model p.stop_chs;
    watchers = delete model p.watchers;
  })

  unfoldable pub unregister_prometheus : Text → Act (PrometheusInformer Q) (Unit {0})
  unregister_prometheus model = do ch ← gets (λ p. lookup model p.stop_chs); close_channel model ch

  unfoldable pub stop_prometheus : Act (PrometheusInformer Q) (Unit {0})
  stop_prometheus = modify (λ p. record p {
    closed = p.closed ++ map (λ e. e.1) p.stop_chs;
    watchers = [];
    stop_chs = [];
  })
