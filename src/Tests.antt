-- ===== src/Tests.antt =====
-- Concrete machines and runs: the theorems applied at inputs that exercise the code, and tests.
mod Machine
mod Kernel
mod Sockets
mod Records
mod Viewer
mod Tools
mod Starting
mod Memory
mod Snapshot
mod Screens
mod Launching
mod Together
mod Viewing
mod Texts
