-- ===== src/Slippy/Claim.antt =====
-- slippy/claim.go: the decisions on a slip's claim, which both stores share, and the markers that
-- they leave in the history.
pub mod Marker
pub mod Decide
pub mod Outcome
