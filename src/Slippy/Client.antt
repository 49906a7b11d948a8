-- ===== src/Slippy/Client.antt =====
-- slippy/client.go and the files of the client's methods, over an abstract store.
pub mod Interface
pub mod InMemory
pub mod Base
pub mod Steps
pub mod Prereqs
pub mod History
pub mod Completion
pub mod Hold
pub mod Waiting
pub mod Resolve
pub mod Execution
