-- ===== src/Exporter.antt =====
-- The exporter of exporter/: which resources end up in the generated configuration.
pub mod Model
pub mod Emitting
