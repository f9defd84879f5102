-- ===== src/Configurer.antt =====
-- internal/dataplane/configurer: kubernetes_configurer.go and kubernetes_configurer_helper.go, which
-- put the gateway in front of the service of a model.
pub mod Cluster
pub mod State
pub mod Gateway
pub mod Slices
pub mod Mirror
pub mod Release
pub mod MirrorLoop
pub mod Fronted
pub mod Waiting
pub mod Steps
pub mod Running
pub mod Watchers
pub mod Stuck
pub mod Apart
pub mod Lifecycle
pub mod Samples
mod Tests
