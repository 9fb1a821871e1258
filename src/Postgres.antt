-- ===== src/Postgres.antt =====
-- parseon-postgres: the storage of chains, monitors and results in PostgreSQL.
pub mod Types
pub mod Columns
pub mod Tables
pub mod Bind
pub mod Insert
pub mod Group
pub mod Commit
pub mod Read
pub mod Loaded
pub mod Chains
pub mod Monitors
