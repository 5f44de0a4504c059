-- ===== src/Common.antt =====
-- The package `common`: errors, calls of the REST API, the HTTP client's pure parts, ID pairs.
pub mod Errors
pub mod Service
pub mod Pair
pub mod Http
pub mod Client
pub mod Commands
