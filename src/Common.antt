-- ===== src/Common.antt =====
-- peekbeam-common/src/lib.rs: the records that the eBPF programs write to the ring buffers and
-- that the userspace reads.
pub mod Layout
pub mod RoundTrip
use peekbeam.Prelude.{ℕ, List}
use peekbeam.Data.Int.{ℤ}

pub data EventKind : Type 0 where
  enter exit : EventKind

pub record SyscallEvent : Type 0 where
  pub pid : ℕ
  pub kind : EventKind
  pub pad : List ℕ
  pub syscall_nr : ℕ
  pub timestamp_ns : ℕ

pub data NetEventKind : Type 0 where
  state_change retransmit : NetEventKind

pub record NetEvent : Type 0 where
  pub kind : NetEventKind
  pub family : ℕ
  pub state : ℕ
  pub sport : ℕ
  pub dport : ℕ
  pub saddr : List ℕ
  pub daddr : List ℕ
  pub timestamp_ns : ℕ

abbrev pub af_inet : ℕ
af_inet = 2

abbrev pub af_inet6 : ℕ
af_inet6 = 10

abbrev pub tcp_close : ℕ
tcp_close = 7

pub data FileEventKind : Type 0 where
  opened close read write : FileEventKind

pub record FileEvent : Type 0 where
  pub pid : ℕ
  pub kind : FileEventKind
  pub fd : ℤ
  pub bytes : ℤ
  pub path_len : ℕ
  pub path : List ℕ
  pub timestamp_ns : ℕ

abbrev pub file_path_max : ℕ
file_path_max = 64

pub data MemEventKind : Type 0 where
  alloc free : MemEventKind

pub record MemEvent : Type 0 where
  pub pid : ℕ
  pub kind : MemEventKind
  pub bytes : ℕ
  pub timestamp_ns : ℕ
