-- ===== src/Tui/Files.antt =====
-- peekbeam/src/tui.rs, `draw_files`.
use peekbeam.Prelude.{ℕ, Bool, false, not, some, List, [], ◌∷◌, map, if◌then◌else◌}
use peekbeam.Data.Int.{ℤ}
use peekbeam.Data.Lists.{length, filter}
use peekbeam.Data.Sort.{sort_by, by_largest}
use peekbeam.Data.Text.{Text, text, decimal, signed, concat}
use peekbeam.Data.Floats.{Floats}
use peekbeam.Userspace.Stats.{add64, FileStats}
use peekbeam.FileTable.{truncate_middle}
use peekbeam.MemStats.{format_bytes}
use peekbeam.Tui.Screen.{
  green, Style, default_style, exactly, at_least, Row, Screen, layout, names, uptime_text,
}

abbrev pub Entry : Type 0
Entry = (ℕ × ℤ) × FileStats

-- `bytes_read + bytes_written` on u64
abbrev pub total_bytes : Entry → ℕ
total_bytes (k, s) = add64 s.bytes_read s.bytes_written

abbrev pub is_open : Entry → Bool
is_open (k, s) = not s.closed

-- The open files are green.
abbrev open_style : Style
open_style = record { fg = some green; bold = false }

module _ (f : Floats) where
  unfoldable pub file_cells : Entry → Row
  unfolding truncate_middle
  file_cells ((pid, fd), s) = record {
    style = if s.closed then default_style else open_style;
    cells =
        truncate_middle s.path 50
        ∷ concat (decimal pid ∷ text ":" ∷ signed fd ∷ [])
        ∷ (if s.closed then text "closed" else text "open")
        ∷ format_bytes f s.bytes_read
        ∷ format_bytes f s.bytes_written
        ∷ [];
  }

  unfoldable pub draw_files : Text → ℕ → List Entry → Screen
  draw_files target uptime entries =
      let rows = sort_by (by_largest total_bytes) entries in
      record {
        chunks = layout;
        title = text "peekbeam — Files";
        header_text = uptime_text target uptime (
            decimal (length (filter is_open rows))
            ∷ text " open, "
            ∷ decimal (length rows)
            ∷ text " total  |  (Tab to cycle panels)"
            ∷ []);
        header =
            names (text "Path" ∷ text "pid:fd" ∷ text "Status" ∷ text "Read" ∷ text "Written" ∷ []);
        widths = at_least 30 ∷ exactly 12 ∷ exactly 8 ∷ exactly 10 ∷ exactly 10 ∷ [];
        rows = map file_cells rows;
        footer =
            text "Ctrl+C or 'q' to quit — detaches all probes cleanly. Green = currently open.";
      }
