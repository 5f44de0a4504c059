-- ===== src/Compute/Selection.antt =====
-- What compute/clusters.go chooses for a cluster: the smallest node type and the latest Spark version.
pub mod NodeTypes
pub mod SparkVersions
