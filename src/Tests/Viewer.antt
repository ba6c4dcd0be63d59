-- ===== src/Tests/Viewer.antt =====
-- The userspace tables after a few events.
use peekbeam.Prelude.{
  ℕ, ◌≡◌, refl, ◌≤◌, ◌≢◌, some, List, [], ◌∷◌, ◌++◌, foldl, arith, nat_eq, pair_eq,
}
use peekbeam.Data.Int.{pos, int_eq}
use peekbeam.Data.Lists.{replicate, All}
use peekbeam.Data.HashMap
use peekbeam.Data.HashMap.{HashMap, get-new}
use peekbeam.Common.{SyscallEvent, NetEvent, FileEvent, exit, retransmit, opened, free}
use peekbeam.Common.Layout.{syscall_event_size, decode_syscall, encode_syscall}
use peekbeam.FileTable.{format_path, truncate_middle}
use peekbeam.Userspace.Stats.{add64, ConnectionStats, key_eq, MemEventStats, Tables, avg_ns}
use peekbeam.Userspace.Apply.{
  apply_syscall, apply_net, apply_file, apply_mem, count_call, key_of, syscall_by, end_call,
}
use peekbeam.Userspace.Drain.{◌>>=◌, drain, poll_events}
use peekbeam.Userspace.Proofs.Draining.{
  skipped, Logs, LogsInRange, rings_of, poll_events-encoded, joined, poll_events-append,
}
use peekbeam.Userspace.Proofs.Calls.{call_of, call_counted}
use peekbeam.Userspace.Proofs.Averages.{stats_of, StampedIn, empty_table, average_bounded}
use peekbeam.Userspace.Proofs.Connections
use peekbeam.Userspace.Proofs.Connections.{AllInRange, of_connection, connection_shown, reopened}
use peekbeam.Userspace.Proofs.OpenFiles
use peekbeam.Userspace.Proofs.OpenFiles.{of_file, file_of, file_shown}
use peekbeam.Userspace.Proofs.Memory.{mem_totals}
use peekbeam.Userspace.Proofs.Paths.{format_path-ascii, IsCut, truncate_middle-IsCut}
use peekbeam.Tests.Records.{
  a_syscall, a_syscall-InRange, a_net, a_net-InRange, a_file, a_file-InRange, a_mem, a_mem-InRange,
}

-- Two processes call the same syscall.
abbrev call : ℕ → ℕ → SyscallEvent
call pid now = record a_syscall { pid = pid; timestamp_ns = now }

abbrev return : ℕ → ℕ → SyscallEvent
return pid now = record a_syscall { pid = pid; kind = exit; timestamp_ns = now }

abbrev others : List SyscallEvent
others = call 8 110 ∷ return 8 120 ∷ []

others_apart : All (λ e. call_of e ≢ call_of (call 7 100)) others
others_apart = (λ p. absurd (ground (arith, p)), (λ p. absurd (ground (arith, p)), tt))

call_counted_example :
    HashMap.get
      (foldl apply_syscall empty_table (call 7 100 ∷ others ++ return 7 250 ∷ [])).stats
      56
    ≡ some (record { count = 2; total_ns = 160 })
unfolding apply_syscall syscall_by end_call count_call add64 HashMap.get HashMap.find HashMap.insert
    HashMap.put HashMap.remove HashMap.without HashMap.entry
call_counted_example =
    call_counted empty_table (call 7 100) (return 7 250) others 56 refl refl refl others_apart

stamps : StampedIn 100 250 (call 7 100 ∷ others ++ return 7 250 ∷ [])
stamps = (
  (omega arith, omega arith),
  ((omega arith, omega arith), ((omega arith, omega arith), ((omega arith, omega arith), tt))),
)

average_bounded_example :
    ((stats_of
        (foldl apply_syscall empty_table (call 7 100 ∷ others ++ return 7 250 ∷ []))
        56).count
      ≤ 4)
    × (avg_ns
          (stats_of (foldl apply_syscall empty_table (call 7 100 ∷ others ++ return 7 250 ∷ [])) 56)
        ≤ 150)
average_bounded_example =
    average_bounded 100 250 56 (call 7 100 ∷ others ++ return 7 250 ∷ []) (omega arith) stamps

-- A connection.
abbrev resent : NetEvent
resent = record a_net { kind = retransmit }

abbrev closed_net : NetEvent
closed_net = record a_net { state = 7 }

no_connections-AllInRange : AllInRange HashMap.new
no_connections-AllInRange k = rw (get-new {V = ConnectionStats} k) (omega arith)

connection_shown_example :
    HashMap.get (foldl apply_net HashMap.new (a_net ∷ resent ∷ [])) (key_of a_net)
    ≡ Connections.shown (of_connection (key_of a_net) (a_net ∷ resent ∷ []))
connection_shown_example =
    connection_shown (key_of a_net) (a_net ∷ resent ∷ []) HashMap.new no_connections-AllInRange
      (get-new (key_of a_net)) (λ _. refl, (λ _. refl, tt))

reopened_example :
    HashMap.get
      (foldl apply_net HashMap.new (a_net ∷ resent ∷ [] ++ closed_net ∷ a_net ∷ []))
      (key_of closed_net)
    ≡ Connections.shown (of_connection (key_of closed_net) (a_net ∷ []))
reopened_example =
    reopened (a_net ∷ resent ∷ []) closed_net (a_net ∷ []) HashMap.new no_connections-AllInRange
      refl (λ _. refl, tt)

-- A file.
abbrev opens : FileEvent
opens = record a_file { kind = opened; fd = pos 3; path = 0x2f ∷ 0x61 ∷ []; path_len = 2 }

abbrev reads : FileEvent
reads = record a_file { fd = pos 3 }

file_shown_example :
    HashMap.get
      (foldl apply_file HashMap.new (a_file ∷ [] ++ opens ∷ reads ∷ reads ∷ []))
      (file_of opens)
    ≡ some (OpenFiles.shown opens (of_file (file_of opens) (reads ∷ reads ∷ [])))
file_shown_example =
    file_shown (a_file ∷ []) opens (reads ∷ reads ∷ []) HashMap.new refl
      (λ _. refl, (λ _. refl, tt))

-- Memory.
abbrev pub no_mem : MemEventStats
no_mem = record { alloc_count = 0; alloc_bytes = 0; free_count = 0 }

mem_totals_example :
    foldl apply_mem no_mem (a_mem ∷ record a_mem { kind = free } ∷ a_mem ∷ [])
    ≡ record { alloc_count = 2; alloc_bytes = 128; free_count = 1 }
mem_totals_example =
    mem_totals (a_mem ∷ record a_mem { kind = free } ∷ a_mem ∷ []) no_mem
      (record { alloc_count = omega arith; alloc_bytes = omega arith; free_count = omega arith })

-- Polling.
abbrev logs : Logs
logs = record {
  syscalls = a_syscall ∷ [];
  nets = a_net ∷ [];
  files = a_file ∷ [];
  mems = a_mem ∷ [];
}

logs-InRange : LogsInRange logs
logs-InRange = record {
  syscalls = (a_syscall-InRange, tt);
  nets = (a_net-InRange, tt);
  files = (a_file-InRange, tt);
  mems = (a_mem-InRange, tt);
}

abbrev pub empty_tables : Tables
empty_tables = record {
  syscalls = empty_table;
  connections = HashMap.new;
  files = HashMap.new;
  mem_events = no_mem;
}

poll_events-encoded_example :
    poll_events (rings_of 170 logs) empty_tables
    ≡ some (record {
      syscalls = apply_syscall empty_table a_syscall;
      connections = apply_net HashMap.new a_net;
      files = apply_file HashMap.new a_file;
      mem_events = apply_mem no_mem a_mem;
    })
poll_events-encoded_example = poll_events-encoded 170 logs empty_tables logs-InRange

poll_events-append_example :
    poll_events (joined (rings_of 170 logs) (rings_of 0 logs)) empty_tables
    ≡ (poll_events (rings_of 170 logs) empty_tables >>= poll_events (rings_of 0 logs))
poll_events-append_example = poll_events-append (rings_of 170 logs) (rings_of 0 logs) empty_tables

skipped_example :
    drain syscall_event_size decode_syscall apply_syscall
      (encode_syscall a_syscall ∷ [] ++ (1 ∷ 2 ∷ []) ∷ [])
      empty_table
    ≡ drain syscall_event_size decode_syscall apply_syscall
        (encode_syscall a_syscall ∷ [] ++ [])
        empty_table
skipped_example =
    skipped syscall_event_size decode_syscall apply_syscall (encode_syscall a_syscall ∷ [])
      (1 ∷ 2 ∷ []) [] empty_table (omega arith)

-- Texts.
format_path-ascii_example : format_path ((0x2f ∷ 0x61 ∷ []) ++ replicate 62 0) 2 ≡ 0x2f ∷ 0x61 ∷ []
format_path-ascii_example =
    format_path-ascii (0x2f ∷ 0x61 ∷ []) (replicate 62 0) (omega arith, (omega arith, tt))

truncate_middle-IsCut_example :
    IsCut (replicate 40 0x61) (truncate_middle (replicate 40 0x61) 11) 11
truncate_middle-IsCut_example =
    truncate_middle-IsCut (replicate 40 0x61) 11 (omega arith) (omega arith)
