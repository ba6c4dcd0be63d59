-- ===== src/Tui/Screen.antt =====
-- peekbeam/src/tui.rs: what the closures of `terminal.draw` render, as data. `ratatui` lays it out.
use peekbeam.Prelude.{ℕ, ◌/◌, Bool, true, false, Option, none, some, List, [], ◌∷◌}
use peekbeam.Data.Text.{Text, text, decimal, concat}

pub data Color : Type 0 where
  yellow green : Color

-- `fg` is `Style::fg`, and `bold` is `Modifier::BOLD`.
pub record Style : Type 0 where
  pub fg : Option Color
  pub bold : Bool

abbrev pub default_style : Style
default_style = record { fg = none; bold = false }

abbrev pub header_style : Style
header_style = record { fg = none; bold = true }

-- Yellow and bold.
abbrev pub warning : Style
warning = record { fg = some yellow; bold = true }

-- `Constraint::Length` and `Constraint::Min`
pub data Constraint : Type 0 where
  exactly at_least : ℕ → Constraint

pub record Row : Type 0 where
  pub style : Style
  pub cells : List Text

-- The paragraph at the top with the title of its block, the table, and the paragraph at the bottom;
-- `chunks` splits the area between the three.
pub record Screen : Type 0 where
  pub chunks : List Constraint
  pub title : Text
  pub header_text : Text
  pub header : Row
  pub widths : List Constraint
  pub rows : List Row
  pub footer : Text

abbrev pub layout : List Constraint
layout = exactly 3 ∷ at_least 0 ∷ exactly 1 ∷ []

-- A bold row of column names.
abbrev pub names : List Text → Row
names cells = record { style = header_style; cells = cells }

abbrev pub plain : List Text → Row
plain cells = record { style = default_style; cells = cells }

-- `{target}  |  uptime {}s  |  ` and what follows; `uptime` is in nanoseconds.
abbrev pub uptime_text : Text → ℕ → List Text → Text
uptime_text target uptime parts =
    concat (target ∷ text "  |  uptime " ∷ decimal (uptime / 1000000000) ∷ text "s  |  " ∷ parts)
