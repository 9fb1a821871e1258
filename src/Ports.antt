-- ===== src/Ports.antt =====
-- The ports of parseon-core/src/ports: what the worker asks of a block source, a cache and a storage.
pub mod Source
pub mod Sink
pub mod Storage
