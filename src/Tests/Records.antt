-- ===== src/Tests/Records.antt =====
-- The records of peekbeam-common/src/lib.rs and their bytes.
use peekbeam.Prelude.{refl, [], ◌∷◌, arith}
use peekbeam.Data.Int.{pos, negsuc}
use peekbeam.Data.Lists.{replicate}
use peekbeam.Common.{SyscallEvent, NetEvent, FileEvent, MemEvent, enter, state_change, read, alloc}
use peekbeam.Common.RoundTrip.{SyscallInRange, NetInRange, FileInRange, MemInRange}

abbrev pub a_syscall : SyscallEvent
a_syscall = record {
  pid = 7;
  kind = enter;
  pad = 0 ∷ 0 ∷ 0 ∷ [];
  syscall_nr = 56;
  timestamp_ns = 5000000000;
}

pub a_syscall-InRange : SyscallInRange a_syscall
a_syscall-InRange = record {
  pid = omega arith;
  pad = refl;
  syscall_nr = omega arith;
  timestamp_ns = omega arith;
}

abbrev pub a_net : NetEvent
a_net = record {
  kind = state_change;
  family = 2;
  state = 1;
  sport = 8080;
  dport = 443;
  saddr = replicate 16 10;
  daddr = replicate 16 11;
  timestamp_ns = 5000000000;
}

pub a_net-InRange : NetInRange a_net
a_net-InRange = record {
  family = omega arith;
  state = omega arith;
  sport = omega arith;
  dport = omega arith;
  saddr = refl;
  daddr = refl;
  timestamp_ns = omega arith;
}

abbrev pub a_file : FileEvent
a_file = record {
  pid = 7;
  kind = read;
  fd = negsuc 0;
  bytes = pos 10;
  path_len = 0;
  path = replicate 64 0;
  timestamp_ns = 5000000000;
}

pub a_file-InRange : FileInRange a_file
a_file-InRange = record {
  pid = omega arith;
  fd = omega arith;
  bytes = omega arith;
  path_len = omega arith;
  path = refl;
  timestamp_ns = omega arith;
}

abbrev pub a_mem : MemEvent
a_mem = record { pid = 7; kind = alloc; bytes = 64; timestamp_ns = 5000000000 }

pub a_mem-InRange : MemInRange a_mem
a_mem-InRange = record { pid = omega arith; bytes = omega arith; timestamp_ns = omega arith }
