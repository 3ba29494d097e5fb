-- ===== src/Trace.antt =====
-- The package trace.
pub mod Ids
pub mod Otel
pub mod Op
pub mod Response
pub mod Middleware
pub mod Query
pub mod Setup
