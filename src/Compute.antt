-- ===== src/Compute.antt =====
-- The package `compute`: clusters, the libraries installed on them, and what is chosen for them.
pub mod States
pub mod Retry
pub mod Selection
pub mod Clusters
pub mod Libraries
pub mod Execution
pub mod Jobs
pub mod Pipelines
