-- ===== src/Rpc.antt =====
-- parseon-rpc/src/provider.rs: the block source over JSON-RPC.
pub mod Errors
pub mod Logs
