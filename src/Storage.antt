-- ===== src/Storage.antt =====
-- The files of storage/.
pub mod Dbfs
