-- ===== src/Slippy/Store.antt =====
-- slippy/slippytest/mock_store.go: the in-memory SlipStore, which the client's behaviour is proved
-- over. Its lock makes each call one step.
pub mod State
pub mod Rows
pub mod Writes
pub mod Claims
pub mod Claiming
pub mod Reads
pub mod Sorting
pub mod Selection
pub mod Calls
pub mod Invariant
pub mod Agreement
pub mod Repaving
pub mod History
