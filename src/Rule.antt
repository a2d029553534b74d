-- ===== src/Rule.antt =====
-- Automation rules (services/rule): stored by the management service, cached, and evaluated against
-- telemetry by the engine.
pub mod Cache
pub mod Telemetry
pub mod Management
pub mod Engine
