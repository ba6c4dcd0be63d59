-- ===== src/Tui.antt =====
-- peekbeam/src/tui.rs: the terminal interface. A panel is drawn as a `Screen`; keys change what the
-- loop draws; `run` puts the terminal into raw mode around the loop.
pub mod Screen
pub mod Syscalls
pub mod Network
pub mod Memory
pub mod Files
pub mod Keys
pub mod Loop
pub mod Run
pub mod Proofs
