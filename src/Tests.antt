-- ===== src/Tests.antt =====
-- Runs of the theorems on small stores, slips and configurations.
mod Data
mod Store
mod Argo
mod Client
mod Push
mod Pipeline
mod Postgres
mod Logger
mod Rollbacks
