-- ===== src/Services.antt =====
-- parseon-core/src/services.rs: what the HTTP handlers call.
pub mod Chains
pub mod Requests
pub mod Monitors
