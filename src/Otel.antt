-- ===== src/Otel.antt =====
-- crates/pgsleuth-otel: the way of a finding to OpenTelemetry.
pub mod Mapping
pub mod Emitter
pub mod Metrics
