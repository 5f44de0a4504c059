-- ===== src/Mws.antt =====
-- The package `mws`: the workspaces and the networks of an account.
pub mod Workspaces
