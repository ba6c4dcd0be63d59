-- ===== src/Tui/Network.antt =====
-- peekbeam/src/tui.rs, `draw_network`.
use peekbeam.Prelude.{ℕ, Bool, List, [], ◌∷◌, ◌++◌, map, ltb, if◌then◌else◌}
use peekbeam.Data.Lists.{length, filter}
use peekbeam.Data.Sort.{sort_by, by_largest}
use peekbeam.Data.Text.{Text, text, decimal}
use peekbeam.Userspace.Stats.{ConnectionKey, ConnectionStats}
use peekbeam.NetTable.{state_name, state_annotation}
use peekbeam.Libs.{Libs}
use peekbeam.Summary.{endpoint}
use peekbeam.Tui.Screen.{
  default_style, warning, exactly, at_least, Row, Screen, layout, names, uptime_text,
}

abbrev pub Entry : Type 0
Entry = ConnectionKey × ConnectionStats

abbrev pub retransmits : Entry → ℕ
retransmits (k, s) = s.retransmits

-- `s.retransmits > 0`
abbrev pub is_retransmitting : Entry → Bool
is_retransmitting e = ltb 0 (retransmits e)

unfoldable pub retransmitting : List Entry → ℕ
retransmitting rows = length (filter is_retransmitting rows)

module _ (l : Libs) where
  unfoldable pub connection_cells : Entry → Row
  connection_cells (k, s) = record {
    style = if is_retransmitting (k, s) then warning else default_style;
    cells =
        endpoint l k.family k.saddr k.sport
        ∷ endpoint l k.family k.daddr k.dport
        ∷ state_name s.state
        ∷ decimal s.retransmits
        ∷ state_annotation s.state
        ∷ [];
  }

  unfoldable pub draw_network : Text → ℕ → List Entry → Screen
  draw_network target uptime entries =
      let rows = sort_by (by_largest retransmits) entries in
      record {
        chunks = layout;
        title = text "peekbeam — Network";
        header_text = uptime_text target uptime (
            decimal (length rows)
            ∷ text " connections, "
            ∷ decimal (retransmitting rows)
            ∷ text " retransmitting  |  (Tab to cycle panels)"
            ∷ []);
        header = names (
            text "Local"
            ∷ text "Remote"
            ∷ text "State"
            ∷ text "Retransmits"
            ∷ text "What it means"
            ∷ []);
        widths = exactly 22 ∷ exactly 22 ∷ exactly 12 ∷ exactly 12 ∷ at_least 24 ∷ [];
        rows = map connection_cells rows;
        footer =
            text "Ctrl+C or 'q' to quit — detaches all probes cleanly. "
            ++ text "Bytes sent/received not available on this host "
            ++ text "(no kernel BTF for a CO-RE socket-stats read).";
      }
