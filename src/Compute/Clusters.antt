-- ===== src/Compute/Clusters.antt =====
-- compute/clusters.go, the cluster life cycle: `ClustersAPI` and its methods over the remote service.
pub mod Model
pub mod Api
pub mod Reuse
pub mod Lifecycle
pub mod Waiting
pub mod Events
pub mod Configuration
pub mod Resource
pub mod Updating
pub mod Requests
pub mod Editing
pub mod Reusing
