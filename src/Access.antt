-- ===== src/Access.antt =====
-- The package `access`: permissions on SQL objects and on workspace objects.
pub mod SqlPermissions
pub mod Permissions
