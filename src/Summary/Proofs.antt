-- ===== src/Summary/Proofs.antt =====
-- The lists of a summary (peekbeam/src/summary.rs, `Summary::build`).
use mathlib.Core.List.{Perm}
use mathlib.Core.List.Perm
use peekbeam.Prelude.{refl, sym, ap, ◌≡◌, ◌∙◌, List, ℕ, map}
use peekbeam.Data.Text.{Text}
use peekbeam.Data.Sort.{
  sort_by, sort_by-perm, sort_by-map, by_largest, IsDescending, sort_by-IsDescending,
}
use peekbeam.Userspace.Stats.{SyscallStats, Tables}
use peekbeam.Container.{System}
use peekbeam.Startup.{MemoryTarget}
use peekbeam.Libs.{Libs}
use peekbeam.Summary.{
  Summary, SyscallSummary, syscall_row, connection_row, file_row, by_total, file_bytes,
  retransmits_of, build,
}

-- The place of a syscall's total time.
abbrev pub time_rank : (l : Libs) → SyscallSummary l.floats → ℕ
time_rank l s = l.floats.rank s.total_us

-- The summary shows the tables: each entry once, in order.
pub record Shows (l : Libs) (t : Tables) (s : Summary l.floats) : Type 0 where
  pub syscalls : Perm s.syscalls (map (syscall_row l) t.syscalls.stats.entries)
  pub connections : Perm s.connections (map (connection_row l) t.connections.entries)
  pub files : Perm s.files (map file_row t.files.entries)
  pub by_time : IsDescending (time_rank l) s.syscalls
  pub by_retransmits : IsDescending retransmits_of s.connections
  pub by_bytes : IsDescending file_bytes s.files

-- The rows compare as their places.
by_total-rank :
    (l : Libs) (a b : ℕ × SyscallStats)
    → by_total l (syscall_row l a) (syscall_row l b)
      ≡ by_largest (time_rank l) (syscall_row l a) (syscall_row l b)
by_total-rank l (i, s) (j, t) = rw (l.floats.partial_cmp-rank t.total_ns s.total_ns) refl

sorted_rows :
    (l : Libs) (entries : List (ℕ × SyscallStats))
    → sort_by (by_total l) (map (syscall_row l) entries)
      ≡ sort_by (by_largest (time_rank l)) (map (syscall_row l) entries)
sorted_rows l entries =
    sort_by-map (syscall_row l) (by_total l) entries
    ∙ ap (λ cmp. map (syscall_row l) (sort_by cmp entries)) (λ i a b. by_total-rank l a b i)
    ∙ sym (sort_by-map (syscall_row l) (by_largest (time_rank l)) entries)

-- A summary has one row for each entry of the three tables, whatever order the entries come in; no
-- syscall stands before one with more total time (as f64 values), no connection before one with more
-- retransmissions, and no file before one with more bytes read and written (their sum on 64 bits).
pub build-Shows :
    (l : Libs) (sys : System) (target : Text) (uptime_secs : ℕ) (t : Tables)
    (memory_target : MemoryTarget)
    → Shows l t (build l sys target uptime_secs t memory_target)
unfolding build
build-Shows l sys target uptime_secs t memory_target = record {
  syscalls =
      Perm.trans (sort_by-perm (by_total l) _)
        (Perm.map (syscall_row l) (l.iter-perm _ t.syscalls.stats.entries));
  connections =
      Perm.trans (sort_by-perm (by_largest retransmits_of) _)
        (Perm.map (connection_row l) (l.iter-perm _ t.connections.entries));
  files =
      Perm.trans (sort_by-perm (by_largest file_bytes) _)
        (Perm.map file_row (l.iter-perm _ t.files.entries));
  by_time = rw (sorted_rows l _) (sort_by-IsDescending (time_rank l) _);
  by_retransmits = sort_by-IsDescending retransmits_of _;
  by_bytes = sort_by-IsDescending file_bytes _;
}
