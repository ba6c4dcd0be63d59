-- ===== src/MemStats/Proofs.antt =====
-- What is read of the memory, the page faults and the sizes (peekbeam/src/mem_stats.rs).
pub mod Totals
pub mod Faults
pub mod Units
