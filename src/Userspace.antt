-- ===== src/Userspace.antt =====
-- peekbeam/src/main.rs: the tables that the userspace keeps, and the loops that fill them from the
-- ring buffers.
pub mod Stats
pub mod Apply
pub mod Drain
pub mod Headless
pub mod Proofs
