-- ===== src/Data.antt =====
-- Shared data.
pub mod Int
pub mod Lists
pub mod Exec
pub mod HashMap
pub mod Keeps
pub mod Utf8
pub mod Text
pub mod Sort
pub mod Floats
