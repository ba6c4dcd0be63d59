-- ===== src/Tui/Proofs/Panels.antt =====
-- What the Network and the Files panel of peekbeam/src/tui.rs show, beside the lists that
-- peekbeam/src/summary.rs builds.
use mathlib.Core.List.{Perm, map-map, Pairwise-cons, Mem, mem-cons_self, mem-cons_of_mem}
use peekbeam.Prelude.{
  true, false, ℕ, suc, ◌/◌, ◌≤◌, ◌≡◌, refl, ap, sym, ◌∙◌, arith, none, some, List, [], ◌∷◌, ◌++◌,
  map, Bool-cases, inl, inr,
}
use peekbeam.Data.Lists.{All, length, filter, take}
use peekbeam.Data.Sort.{
  sort_by, by_largest, IsDescending, sort_by-IsDescending, sort_by-map, sort_by-perm,
  length-sort_by,
}
use peekbeam.Data.Text.{Text, text, decimal, signed, concat}
use peekbeam.Data.Floats.{Floats}
use peekbeam.Userspace.Stats.{Tables}
use peekbeam.FileTable.{truncate_middle}
use peekbeam.MemStats.{format_bytes}
use peekbeam.Container.{System}
use peekbeam.Startup.{MemoryTarget}
use peekbeam.Libs.{Libs}
use peekbeam.NetTable.{state_name, state_annotation}
use peekbeam.Summary.{
  endpoint, ConnectionSummary, FileSummary, connection_row, file_row, file_bytes, retransmits_of,
  build,
}
use peekbeam.Tui.Screen.{Style, default_style, warning, yellow, Row, Screen}
use peekbeam.Tui.Network
use peekbeam.Tui.Network.{
  connection_cells, draw_network, retransmits, is_retransmitting, retransmitting,
}
use peekbeam.Tui.Files
use peekbeam.Tui.Files.{file_cells, draw_files}

abbrev pub cells_of : Row → List Text
cells_of r = r.cells

-- The first columns of the Network panel, and the columns of the Files panel, from a summary.
abbrev pub connection_texts : ConnectionSummary → List Text
connection_texts c = c.local ∷ c.remote ∷ c.state ∷ decimal c.retransmits ∷ []

abbrev pub file_texts : Floats → FileSummary → List Text
file_texts f s =
    truncate_middle s.path 50
    ∷ concat (decimal s.pid ∷ text ":" ∷ signed s.fd ∷ [])
    ∷ s.status
    ∷ format_bytes f s.bytes_read
    ∷ format_bytes f s.bytes_written
    ∷ []

module _ (l : Libs) (sys : System) (target : Text) (t : Tables) (memory_target : MemoryTarget) where
  network_agrees :
      (uptime secs : ℕ)
      → map
          (λ r. take 4 (cells_of r))
          (draw_network l target uptime (l.iter _ t.connections.entries)).rows
        ≡ map connection_texts (build l sys target secs t memory_target).connections
  unfolding build draw_network connection_cells
  network_agrees uptime secs =
      let entries = l.iter _ t.connections.entries in
      let by = by_largest retransmits in
      map-map _ _ (sort_by by entries)
      ∙ sym (map-map connection_texts (connection_row l) (sort_by by entries))
      ∙ ap (map connection_texts)
          (sym (sort_by-map (connection_row l) (by_largest retransmits_of) entries))

  files_agree :
      (uptime secs : ℕ)
      → map cells_of (draw_files l.floats target uptime (l.iter _ t.files.entries)).rows
        ≡ map (file_texts l.floats) (build l sys target secs t memory_target).files
  unfolding build draw_files file_cells
  files_agree uptime secs =
      let entries = l.iter _ t.files.entries in
      let by = by_largest Files.total_bytes in
      map-map cells_of (file_cells l.floats) (sort_by by entries)
      ∙ sym (map-map (file_texts l.floats) file_row (sort_by by entries))
      ∙ ap (map (file_texts l.floats)) (sym (sort_by-map file_row (by_largest file_bytes) entries))

  -- The Network panel shows the connections of a summary made from the same tables, in its order, and
  -- the Files panel its files, in its order, with the paths cut to 50 characters and the bytes in
  -- units.
  pub panels_agree :
      (uptime secs : ℕ)
      → (map
            (λ r. take 4 (cells_of r))
            (draw_network l target uptime (l.iter _ t.connections.entries)).rows
          ≡ map connection_texts (build l sys target secs t memory_target).connections)
        × (map cells_of (draw_files l.floats target uptime (l.iter _ t.files.entries)).rows
            ≡ map (file_texts l.floats) (build l sys target secs t memory_target).files)
  panels_agree uptime secs = (network_agrees uptime secs, files_agree uptime secs)

-- Behind a connection without retransmissions there is none with any.
all_quiet :
    (l : List Network.Entry)
    → ((e : Network.Entry) → Mem e l → retransmits e ≤ 0)
    → filter is_retransmitting l ≡ []
all_quiet [] q = refl
all_quiet (e ∷ es) q =
    let here = q e mem-cons_self in
    let rest = all_quiet es (λ d i. q d (mem-cons_of_mem e i)) in ground (arith, here, rest)

-- The row of a connection in a style.
abbrev pub row_of : Libs → Style → Network.Entry → Row
row_of l style (k, s) = record {
  style = style;
  cells =
      endpoint l k.family k.saddr k.sport
      ∷ endpoint l k.family k.daddr k.dport
      ∷ state_name s.state
      ∷ decimal s.retransmits
      ∷ state_annotation s.state
      ∷ [];
}

-- A list of connections is a front with retransmissions and a back without.
record Split (l : Libs) (rows : List Network.Entry) : Type 0 where
  front : List Network.Entry
  back : List Network.Entry
  joined : front ++ back ≡ rows
  busy : All (λ e. 1 ≤ retransmits e) front
  idle : All (λ e. retransmits e ≡ 0) back
  counted : retransmitting rows ≡ length front
  shown :
      map (connection_cells l) rows
      ≡ map (row_of l warning) front ++ map (row_of l default_style) back

-- Rows without retransmissions.
idle_rows :
    (l : Libs) (rows : List Network.Entry)
    → ((e : Network.Entry) → Mem e rows → retransmits e ≤ 0)
    → All (λ e. retransmits e ≡ 0) rows
      × (map (connection_cells l) rows ≡ map (row_of l default_style) rows)
unfolding connection_cells
idle_rows l [] q = (tt, refl)
idle_rows l (e ∷ es) q =
    let here : retransmits e ≡ 0 = let k = q e mem-cons_self in omega (arith, k) in
    let (idle, shown) = idle_rows l es (λ d i. q d (mem-cons_of_mem e i)) in
    ((here, idle), rw (here, shown))

split : (l : Libs) (rows : List Network.Entry) → IsDescending retransmits rows → Split l rows
unfolding connection_cells retransmitting
split l [] d = record {
  front = [];
  back = [];
  joined = refl;
  busy = tt;
  idle = tt;
  counted = refl;
  shown = refl;
}
split l (e ∷ es) d =
    let (below, tail) = Pairwise-cons.0 d in
    let rest = split l es tail in
    elim (Bool-cases (is_retransmitting e)) [
      | inl y ↦ record {
        front = e ∷ rest.front;
        back = rest.back;
        joined = ap (λ r. e ∷ r) rest.joined;
        busy = (ground (arith, y), rest.busy);
        idle = rest.idle;
        counted = rw y (ap suc rest.counted);
        shown = rw y (ap (λ r. row_of l warning e ∷ r) rest.shown);
      }
      | inr n ↦
          let none_here : retransmits e ≤ 0 = ground (arith, n) in
          let least : (d : Network.Entry) → Mem d es → retransmits d ≤ 0 =
            λ d i. let k = below d i in omega (arith, k, none_here) in
          let (idle, shown) = idle_rows l es least in
          record {
            front = [];
            back = e ∷ es;
            joined = refl;
            busy = tt;
            idle = (omega (arith, none_here), idle);
            counted = rw (n, all_quiet es least);
            shown = rw n (ap (λ r. row_of l default_style e ∷ r) shown);
          }
    ]

-- What the Network panel is to show of the connections `entries`.
pub record ShowsNetwork (l : Libs) (target : Text) (uptime : ℕ) (entries : List Network.Entry)
    (screen : Screen) : Type 0 where
  pub front : List Network.Entry
  pub back : List Network.Entry
  pub same : Perm (front ++ back) entries
  pub busy : All (λ e. 1 ≤ (e.1).retransmits) front
  pub idle : All (λ e. (e.1).retransmits ≡ 0) back
  pub rows :
      screen.rows
      ≡ map (row_of l (record { fg = some yellow; bold = true })) front
        ++ map (row_of l (record { fg = none; bold = false })) back
  pub header :
      screen.header_text
      ≡ concat (
          target
          ∷ text "  |  uptime "
          ∷ decimal (uptime / 1000000000)
          ∷ text "s  |  "
          ∷ decimal (length entries)
          ∷ text " connections, "
          ∷ decimal (length front)
          ∷ text " retransmitting  |  (Tab to cycle panels)"
          ∷ [])

-- The Network panel shows each connection once, in a row with its endpoints, its state, its count of
-- retransmissions and what the state means: first, in bold yellow, those with a retransmission, then,
-- in the default style, those without. Its header shows the number of all and the number of the
-- yellow ones, behind the target and the uptime in seconds.
pub network_styles :
    (l : Libs) (target : Text) (uptime : ℕ) (entries : List Network.Entry)
    → ShowsNetwork l target uptime entries (draw_network l target uptime entries)
unfolding draw_network
network_styles l target uptime entries =
    let by = by_largest retransmits in
    let s = split l (sort_by by entries) (sort_by-IsDescending retransmits entries) in
    record {
      front = s.front;
      back = s.back;
      same = rw s.joined (sort_by-perm by entries);
      busy = s.busy;
      idle = s.idle;
      rows = s.shown;
      header = rw (s.counted, length-sort_by);
    }
