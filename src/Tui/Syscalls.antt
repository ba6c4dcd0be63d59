-- ===== src/Tui/Syscalls.antt =====
-- peekbeam/src/tui.rs, `draw_syscalls`.
use peekbeam.Prelude.{ℕ, Bool, ◌||◌, List, [], ◌∷◌, map, foldl, ltb, if◌then◌else◌}
use peekbeam.Data.Sort.{sort_by, by_largest}
use peekbeam.Data.Text.{Text, text, decimal}
use peekbeam.Userspace.Stats.{add64, SyscallStats, avg_ns}
use peekbeam.SyscallTable.{lookup}
use peekbeam.Libs.{Libs}
use peekbeam.Tui.Screen.{
  default_style, warning, exactly, at_least, Row, Screen, layout, names, uptime_text,
}

pub data SortBy : Type 0 where
  by_count by_time : SortBy

abbrev pub Entry : Type 0
Entry = ℕ × SyscallStats

-- What the rows are sorted by.
abbrev pub sort_key : SortBy → Entry → ℕ
sort_key by_count (nr, s) = s.count
sort_key by_time (nr, s) = s.total_ns

unfoldable pub sorted : SortBy → List Entry → List Entry
sorted o rows = sort_by (by_largest (sort_key o)) rows

abbrev pub sort_label : SortBy → Text
sort_label by_count = text "count"
sort_label by_time = text "total time"

unfoldable pub notable : SyscallStats → Bool
notable s = ltb 10000000 (avg_ns s) || ltb 10000 s.count

-- the `sum` over u64
unfoldable pub total_events : List Entry → ℕ
total_events rows = foldl (λ n r. add64 n (r.1).count) 0 rows

module _ (l : Libs) where
  unfoldable pub syscall_cells : Entry → Row
  unfolding notable
  syscall_cells (nr, s) =
      let info = lookup l.sysno nr in
      record {
        style = if notable s then warning else default_style;
        cells =
            info.category
            ∷ info.name
            ∷ decimal s.count
            ∷ l.floats.fixed 2 (l.floats.div (l.floats.of_u64 s.total_ns) 1000)
            ∷ l.floats.fixed 2 (l.floats.div (l.floats.of_u64 (avg_ns s)) 1000)
            ∷ info.annotation
            ∷ [];
      }

  unfoldable pub draw_syscalls : Text → ℕ → SortBy → List Entry → Screen
  unfolding sorted total_events
  draw_syscalls target uptime o entries =
      let rows = sorted o entries in
      record {
        chunks = layout;
        title = text "peekbeam — Syscalls";
        header_text = uptime_text target uptime (
            decimal (total_events rows)
            ∷ text " syscalls seen  |  sorted by "
            ∷ sort_label o
            ∷ text " ('s' to toggle, Tab to cycle panels)"
            ∷ []);
        header = names (
            text "Category"
            ∷ text "Syscall"
            ∷ text "Count"
            ∷ text "Total (us)"
            ∷ text "Avg (us)"
            ∷ text "What it means"
            ∷ []);
        widths = exactly 15 ∷ exactly 18 ∷ exactly 9 ∷ exactly 12 ∷ exactly 10 ∷ at_least 24 ∷ [];
        rows = map syscall_cells rows;
        footer = text "Ctrl+C or 'q' to quit — detaches all probes cleanly";
      }
