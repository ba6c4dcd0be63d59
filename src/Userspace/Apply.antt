-- ===== src/Userspace/Apply.antt =====
-- peekbeam/src/main.rs: what each of the four loops does with one event.
use peekbeam.Prelude.{
  ℕ, ◌-◌, Option, none, some, true, false, nat_beq, if◌then◌else◌, nat_eq, pair_eq,
}
use peekbeam.Data.Int.{as_unsigned, int_eq}
use peekbeam.Data.HashMap
use peekbeam.Data.HashMap.{HashMap}
use peekbeam.Common.{
  EventKind, enter, exit, SyscallEvent, NetEventKind, state_change, retransmit, NetEvent, tcp_close,
  FileEventKind, opened, close, read, write, FileEvent, MemEventKind, alloc, free, MemEvent,
}
use peekbeam.FileTable.{format_path}
use peekbeam.Userspace.Stats.{
  add64, SyscallStats, no_syscalls, ConnectionKey, no_connection, key_eq, unknown_file,
  MemEventStats, SyscallTable, ConnMap, FilesMap,
}

-- `entry.count += 1; entry.total_ns += dur;`
unfoldable pub count_call : ℕ → SyscallStats → SyscallStats
count_call dur s = record { count = add64 s.count 1; total_ns = add64 s.total_ns dur }

-- `saturating_sub` is the subtraction of ℕ.
unfoldable pub end_call : SyscallEvent → Option ℕ → SyscallTable → SyscallTable
unfolding count_call
end_call e none t = t
end_call e (some start) t = record {
  pending = HashMap.remove t.pending (e.pid, e.syscall_nr);
  stats = HashMap.entry t.stats e.syscall_nr no_syscalls (count_call (e.timestamp_ns - start));
}

unfoldable pub syscall_by : EventKind → SyscallEvent → SyscallTable → SyscallTable
unfolding end_call
syscall_by enter e t = record t {
  pending = HashMap.insert t.pending (e.pid, e.syscall_nr) e.timestamp_ns;
}
syscall_by exit e t = end_call e (HashMap.get t.pending (e.pid, e.syscall_nr)) t

unfoldable pub apply_syscall : SyscallTable → SyscallEvent → SyscallTable
unfolding syscall_by
apply_syscall t e = syscall_by e.kind e t

abbrev pub key_of : NetEvent → ConnectionKey
key_of e = record {
  family = e.family;
  sport = e.sport;
  dport = e.dport;
  saddr = e.saddr;
  daddr = e.daddr;
}

unfoldable pub net_by : NetEventKind → NetEvent → ConnMap → ConnMap
net_by state_change e m =
    if nat_beq e.state tcp_close
    then HashMap.remove m (key_of e)
    else HashMap.entry m (key_of e) no_connection (λ s. record s { state = e.state })
net_by retransmit e m =
    HashMap.entry m (key_of e) no_connection
      (λ s. record { state = e.state; retransmits = add64 s.retransmits 1 })

unfoldable pub apply_net : ConnMap → NetEvent → ConnMap
unfolding net_by
apply_net m e = net_by e.kind e m

-- `event.bytes as u64` keeps the 64 bits.
unfoldable pub file_by : FileEventKind → FileEvent → FilesMap → FilesMap
file_by opened e m =
    HashMap.insert m (e.pid, e.fd)
      (record {
        path = format_path e.path e.path_len;
        bytes_read = 0;
        bytes_written = 0;
        closed = false;
      })
file_by close e m = HashMap.get_mut m (e.pid, e.fd) (λ s. record s { closed = true })
file_by read e m =
    HashMap.entry m (e.pid, e.fd) unknown_file
      (λ s. record s { bytes_read = add64 s.bytes_read (as_unsigned 64 e.bytes) })
file_by write e m =
    HashMap.entry m (e.pid, e.fd) unknown_file
      (λ s. record s { bytes_written = add64 s.bytes_written (as_unsigned 64 e.bytes) })

unfoldable pub apply_file : FilesMap → FileEvent → FilesMap
unfolding file_by
apply_file m e = file_by e.kind e m

unfoldable pub mem_by : MemEventKind → MemEvent → MemEventStats → MemEventStats
mem_by alloc e s = record s {
  alloc_count = add64 s.alloc_count 1;
  alloc_bytes = add64 s.alloc_bytes e.bytes;
}
mem_by free e s = record s { free_count = add64 s.free_count 1 }

unfoldable pub apply_mem : MemEventStats → MemEvent → MemEventStats
unfolding mem_by
apply_mem s e = mem_by e.kind e s
