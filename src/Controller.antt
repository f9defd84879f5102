-- ===== src/Controller.antt =====
-- internal/controller/modeldeployment_controller.go: the reconciler of ModelDeployments.
pub mod State
pub mod Callbacks
pub mod Watch
pub mod Reconcile
pub mod Run
pub mod Sound
pub mod Idempotence
pub mod Recovery
pub mod Failover
pub mod Forgetting
pub mod Samples
mod Tests
