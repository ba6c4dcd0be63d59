-- ===== src/Summary.antt =====
-- peekbeam/src/summary.rs: a snapshot of everything that was seen.
pub mod Plain
pub mod Proofs
use Prim.Native.Nat.{compare, Ordering}
use Prim.Native.String.{String}
use peekbeam.Prelude.{ℕ, Bool, true, false, Option, none, some, List, [], ◌∷◌, map, if◌then◌else◌}
use peekbeam.Data.Int.{ℤ}
use peekbeam.Data.HashMap.{HashMap, or_default}
use peekbeam.Data.Sort.{sort_by, by_largest}
use peekbeam.Data.Text.{Text, text, decimal, concat}
use peekbeam.Data.Floats.{Floats}
use peekbeam.Userspace.Stats.{
  add64, SyscallStats, avg_ns, ConnectionKey, ConnectionStats, FileStats, MemEventStats, Tables,
}
use peekbeam.Container.{System, Outcome, done, failed}
use peekbeam.Startup.{MemoryTarget}
use peekbeam.NetTable.{state_name, format_addr}
use peekbeam.SyscallTable.{lookup}
use peekbeam.MemStats
use peekbeam.MemStats.{MemReport, FaultStats}
use peekbeam.Libs.{Libs}

pub record SyscallSummary (f : Floats) : Type 0 where
  pub name : Text
  pub category : Text
  pub count : ℕ
  pub total_us : f.F64
  pub avg_us : f.F64

pub record ConnectionSummary : Type 0 where
  pub local : Text
  pub remote : Text
  pub state : Text
  pub retransmits : ℕ

pub record FileSummary : Type 0 where
  pub path : Text
  pub pid : ℕ
  pub fd : ℤ
  pub status : Text
  pub bytes_read : ℕ
  pub bytes_written : ℕ

-- `MemorySummary` has the two forms of `MemReport`, field by field; `FaultSummary` is a `FaultStats`.
pub record Summary (f : Floats) : Type 0 where
  pub target : Text
  pub uptime_secs : ℕ
  pub syscalls : List (SyscallSummary f)
  pub connections : List ConnectionSummary
  pub files : List FileSummary
  pub kernel_allocs : ℕ
  pub kernel_alloc_bytes : ℕ
  pub kernel_frees : ℕ
  pub memory : Option MemReport
  pub page_faults : Option FaultStats

-- `Result::ok`
abbrev pub ok_of {ℓ} : {A : Type ℓ} → Outcome A → Option A
ok_of (done a) = some a
ok_of (failed e) = none

module _ (l : Libs) where
  abbrev pub syscall_row : ℕ × SyscallStats → SyscallSummary l.floats
  syscall_row (nr, s) = record {
    name = (lookup l.sysno nr).name;
    category = (lookup l.sysno nr).category;
    count = s.count;
    total_us = l.floats.div (l.floats.of_u64 s.total_ns) 1000;
    avg_us = l.floats.div (l.floats.of_u64 (avg_ns s)) 1000;
  }

  -- `format!("{}:{}", format_addr(..), port)`
  unfoldable pub endpoint : ℕ → List ℕ → ℕ → Text
  endpoint family addr port =
      concat (format_addr l.addrs family addr ∷ text ":" ∷ decimal port ∷ [])

  abbrev pub connection_row : ConnectionKey × ConnectionStats → ConnectionSummary
  connection_row (k, s) = record {
    local = endpoint k.family k.saddr k.sport;
    remote = endpoint k.family k.daddr k.dport;
    state = state_name s.state;
    retransmits = s.retransmits;
  }

  -- The comparison of f64 values, the larger first; values that have no order count as equal.
  abbrev pub by_total : SyscallSummary l.floats → SyscallSummary l.floats → Ordering
  by_total a b = or_default Ordering.eq (l.floats.partial_cmp b.total_us a.total_us)

abbrev pub file_row : (ℕ × ℤ) × FileStats → FileSummary
file_row ((pid, fd), s) = record {
  path = s.path;
  pid = pid;
  fd = fd;
  status = if s.closed then text "closed" else text "open";
  bytes_read = s.bytes_read;
  bytes_written = s.bytes_written;
}

-- `bytes_read + bytes_written` on u64
abbrev pub file_bytes : FileSummary → ℕ
file_bytes s = add64 s.bytes_read s.bytes_written

abbrev pub retransmits_of : ConnectionSummary → ℕ
retransmits_of c = c.retransmits

unfoldable pub build : (l : Libs) → System → Text → ℕ → Tables → MemoryTarget → Summary l.floats
build l sys target uptime_secs t memory_target = record {
  target = target;
  uptime_secs = uptime_secs;
  syscalls = sort_by (by_total l) (map (syscall_row l) (l.iter _ t.syscalls.stats.entries));
  connections =
      sort_by (by_largest retransmits_of) (map (connection_row l) (l.iter _ t.connections.entries));
  files = sort_by (by_largest file_bytes) (map file_row (l.iter _ t.files.entries));
  kernel_allocs = t.mem_events.alloc_count;
  kernel_alloc_bytes = t.mem_events.alloc_bytes;
  kernel_frees = t.mem_events.free_count;
  memory = ok_of (MemStats.read sys memory_target);
  page_faults = ok_of (MemStats.read_faults sys memory_target);
}

-- `serde_json::to_string_pretty(self).unwrap_or_else(|_| "{}".to_string())`
unfoldable pub to_json : {f : Floats} → (Summary f → Option Text) → Summary f → Text
to_json serde s = or_default (text "{}") (serde s)
