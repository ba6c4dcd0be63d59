-- ===== src/Tests/Screens.antt =====
-- Rounds of the terminal interface.
use peekbeam.Prelude.{ℕ, ◌+◌, ◌%◌, ◌≡◌, refl, ◌↔◌, Bool, true, false, some, List, [], ◌∷◌, map}
use peekbeam.Data.Lists.{take}
use peekbeam.Data.Text.{text}
use peekbeam.Startup.{of_pid}
use peekbeam.Userspace.Drain.{
  poll_events, drain, drain_syscalls, drain_net_events, drain_file_events, drain_mem_events,
}
use peekbeam.Summary.{build}
use peekbeam.Tui.Syscalls.{SortBy, by_count, by_time}
use peekbeam.Tui.Network.{draw_network}
use peekbeam.Tui.Files.{draw_files}
use peekbeam.Tui.Keys.{
  View, syscalls, network, KeyCode, char, tab, esc, press, key, on_press, on_kind, on_event,
  on_input,
}
use peekbeam.Tui.Loop.{
  Setup, Round, Session, goes_on, ended, panel, redraw, after_input, round, rounds, run_loop,
}
use peekbeam.Tui.Run.{
  Call, install, enable_raw_mode, enter_alternate_screen, call_failed, Report, call, set_up, run,
}
use peekbeam.Tui.Proofs.Pressing.{number, tabs, toggles, toggled_times}
use peekbeam.Tui.Proofs.Following.{keys_followed}
use peekbeam.Tui.Proofs.Leaving.{Works, any_asks, quits_iff}
use peekbeam.Tui.Proofs.Restoring.{LeftAs, run-LeftAs}
use peekbeam.Tui.Proofs.Panels.{
  cells_of, ShowsNetwork, connection_texts, file_texts, panels_agree, network_styles,
}
use peekbeam.Tests.Memory.{alone}
use peekbeam.Tests.Snapshot.{libs, seen, quiet, quiet-polls}

panels_agree_example :
    (map
        (λ r. take 4 (cells_of r))
        (draw_network libs (text "PID 42") 9 (libs.iter _ seen.connections.entries)).rows
      ≡ map connection_texts (build libs alone (text "PID 42") 5 seen (of_pid 42)).connections)
    × (map cells_of (draw_files libs.floats (text "PID 42") 9 (libs.iter _ seen.files.entries)).rows
        ≡ map (file_texts libs.floats) (build libs alone (text "PID 42") 5 seen (of_pid 42)).files)
panels_agree_example = panels_agree libs alone (text "PID 42") seen (of_pid 42) 9 5

network_styles_example :
    ShowsNetwork libs
      (text "PID 42")
      9
      seen.connections.entries
      (draw_network libs (text "PID 42") 9 seen.connections.entries)
network_styles_example = network_styles libs (text "PID 42") 9 seen.connections.entries

abbrev pressing : KeyCode → ℕ → Round
pressing c now = record {
  requested = false;
  polled = some true;
  event = some (key (record { kind = press; key_code = c; control = false }));
  rings = quiet;
  tested = now;
  shown = now;
  sys = alone;
  draws = true;
  drawn = now;
}

abbrev letter_s : KeyCode
letter_s = char 115

-- The second press of 's' comes while the Network panel is shown. No drawing is due.
abbrev presses : List Round
presses = pressing letter_s 20 ∷ pressing tab 20 ∷ pressing letter_s 20 ∷ []

abbrev setup : Setup
setup = record { target = text "PID 42"; memory_target = of_pid 42; refresh = 1000; start = 0 }

abbrev session : View → SortBy → Session
session v o = record { view = v; sort_by = o; last_draw = 10; tables = seen; screens = [] }

steps : Unit {0}
unfolding panel redraw after_input round rounds on_press on_kind on_event on_input run_loop
    poll_events drain drain_syscalls drain_net_events drain_file_events drain_mem_events
steps = tt

rounds-presses :
    rounds libs setup presses (session syscalls by_time) ≡ some (goes_on (session network by_count))
unfolding steps
rounds-presses = refl

keys_followed_example :
    (number network ≡ (number syscalls + tabs presses) % 4)
    × (by_count ≡ toggled_times (toggles (number syscalls) presses) by_time)
keys_followed_example =
    keys_followed libs setup presses (session syscalls by_time) (session network by_count)
      rounds-presses

abbrev leaving : List Round
leaving = pressing tab 2000 ∷ pressing esc 2000 ∷ []

pressing-Works : (c : KeyCode) (now : ℕ) → Works (pressing c now)
pressing-Works c now = record { answers = tt; polls = quiet-polls; draws = refl }

quits_iff_example :
    ((s' : Session) × (rounds libs setup leaving (session syscalls by_time) ≡ some (ended s')))
    ↔ (any_asks leaving ≡ true)
quits_iff_example =
    quits_iff libs setup leaving (session syscalls by_time)
      (pressing-Works tab 2000, (pressing-Works esc 2000, tt))

-- The terminal has no alternate screen.
abbrev succeeds : Call → Bool
succeeds enter_alternate_screen = false
succeeds _ = true

abbrev stuck : Report
stuck = record {
  calls = install ∷ enable_raw_mode ∷ [];
  status = call_failed enter_alternate_screen;
}

run-stuck : run succeeds libs setup 5 6 seen leaving ≡ some stuck
unfolding run set_up call
run-stuck = refl

run-LeftAs_example : LeftAs stuck
run-LeftAs_example = run-LeftAs succeeds libs setup 5 6 seen leaving stuck run-stuck
