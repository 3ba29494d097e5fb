-- ===== src/Tests.antt =====
-- Runs of the modelled code at concrete inputs, and the theorems applied there.
mod World
mod Identifiers
mod Handlers
mod Carriers
mod Lines
mod Logs
mod Files
mod Routing
mod Serving
mod Tracing
mod Turns
mod Sinks
