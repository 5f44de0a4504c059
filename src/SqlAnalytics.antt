-- ===== src/SqlAnalytics.antt =====
-- The package `sqlanalytics`: the SQL endpoints.
pub mod Endpoints
