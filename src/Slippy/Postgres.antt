-- ===== src/Slippy/Postgres.antt =====
-- slippy/postgres_store*.go: the store over Postgres.
pub mod Gate
pub mod State
pub mod Columns
pub mod Events
pub mod Steps
pub mod Writes
pub mod Repave
pub mod Reads
pub mod Schema
pub mod Tags
pub mod Progress
pub mod Freshness
pub mod Retry
pub mod Repaving
pub mod Selection
pub mod Quiescence
pub mod Refinement
pub mod RoundTrip
pub mod Rollbacks
