-- ===== src/Slippy/Push.antt =====
-- slippy/push.go: what a push does: the slip that it reuses, resets, repaves or creates, and the
-- ancestors that it supersedes.
pub mod Options
pub mod Fresh
pub mod Backstop
pub mod Persist
pub mod Search
pub mod Ancestors
pub mod Create
