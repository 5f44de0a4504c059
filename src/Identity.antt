-- ===== src/Identity.antt =====
-- The package `identity`: the values of the SCIM protocol, groups and users.
pub mod Scim
pub mod Groups
pub mod Users
