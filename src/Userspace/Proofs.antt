-- ===== src/Userspace/Proofs.antt =====
-- What the tables of peekbeam/src/main.rs hold after any sequence of events.
pub mod Draining
pub mod Calls
pub mod Averages
pub mod Connections
pub mod OpenFiles
pub mod Memory
pub mod Sampling
pub mod Streaming
pub mod Paths
