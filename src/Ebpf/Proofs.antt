-- ===== src/Ebpf/Proofs.antt =====
-- What is proved of the programs in the kernel.
pub mod Writes
pub mod Filtering
pub mod Frames
pub mod Untargeted
pub mod Room
pub mod Emit
pub mod Log
pub mod Sockets
pub mod Pairing
pub mod FdCalls
pub mod Descriptors
pub mod Steps
