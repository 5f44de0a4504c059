-- ===== src/Tests.antt =====
-- Runs of the models at concrete inputs, and each theorem with hypotheses applied where they hold.
mod Selection
mod Clusters
mod Access
mod Storage
mod Pairs
mod Exporter
mod Commands
mod Http
mod Endpoints
mod Pipelines
mod Identity
mod Jobs
mod Updating
mod Mws
mod Client
mod Execution
mod Masking
mod Libraries
