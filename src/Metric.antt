-- ===== src/Metric.antt =====
-- internal/informers/metric: the watchers of metrics.
pub mod Condition
pub mod Target
pub mod Replicas
pub mod Watcher
pub mod Rounds
pub mod Spec
pub mod Tracking
pub mod Prometheus
pub mod Turns
pub mod Registry
mod Scrapes
mod Tests
