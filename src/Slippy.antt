-- ===== src/Slippy.antt =====
-- The package slippy (slippy/): routing slips of a CI/CD pipeline.
pub mod Errors
pub mod Status
pub mod Types
pub mod Aggregate
pub mod Claim
pub mod Store
pub mod Postgres
pub mod Pipeline
pub mod Client
pub mod Push
