-- ===== src/Ebpf.antt =====
-- peekbeam-ebpf/src/main.rs: the programs that run in the kernel.
pub mod Host
pub mod State
pub mod Files
pub mod Net
pub mod Mem
pub mod Syscalls
pub mod Programs
pub mod Proofs
