-- ===== src/Tui/Proofs.antt =====
-- What holds of the terminal interface.
pub mod Pressing
pub mod Following
pub mod Leaving
pub mod Restoring
pub mod Panels
