-- ===== src/Tui/Loop.antt =====
-- peekbeam/src/tui.rs, `run_loop`. A round of the loop is given what it meets: the flag of the
-- signals, the event, the items in the ring buffers, the readings of the clock in nanoseconds, the
-- machine as the Memory panel finds it, and whether `terminal.draw` succeeds.
use peekbeam.Prelude.{ℕ, ◌-◌, Bool, Option, none, some, List, [], ◌∷◌, ◌++◌, leb, if◌then◌else◌}
use peekbeam.Data.HashMap.{or_default}
use peekbeam.Data.Text.{Text}
use peekbeam.Userspace.Stats.{Tables}
use peekbeam.Userspace.Drain.{Rings, poll_events, ◌>>=◌}
use peekbeam.Startup.{MemoryTarget}
use peekbeam.Container.{System}
use peekbeam.Libs.{Libs}
use peekbeam.Tui.Screen.{Screen}
use peekbeam.Tui.Syscalls.{SortBy, by_time, draw_syscalls}
use peekbeam.Tui.Network.{draw_network}
use peekbeam.Tui.Memory.{draw_memory}
use peekbeam.Tui.Files.{draw_files}
use peekbeam.Tui.Keys.{
  View, syscalls, network, memory, files, Event, Flow, stays, leaves, fails, on_input,
}

-- The arguments of `run` that do not change, and `start`.
pub record Setup : Type 0 where
  pub target : Text
  pub memory_target : MemoryTarget
  pub refresh : ℕ
  pub start : ℕ

-- `polled` and `event` are `none` where `event::poll` and `event::read` fail. The clock is read when
-- the last drawing's age is tested, for the uptime, and after drawing.
pub record Round : Type 0 where
  pub requested : Bool
  pub polled : Option Bool
  pub event : Option Event
  pub rings : Rings
  pub tested : ℕ
  pub shown : ℕ
  pub sys : System
  pub draws : Bool
  pub drawn : ℕ

-- The variables of the loop, and the screens drawn so far.
pub record Session : Type 0 where
  pub view : View
  pub sort_by : SortBy
  pub last_draw : ℕ
  pub tables : Tables
  pub screens : List Screen

-- The loop goes on, `run_loop` has returned `Ok(())`, or it has returned an error.
pub data Progress : Type 0 where
  goes_on ended broken : Session → Progress

module _ (l : Libs) (c : Setup) where
  -- the `match view`
  unfoldable pub panel : Round → View → SortBy → Tables → Screen
  panel r syscalls o t =
      draw_syscalls l c.target (r.shown - c.start) o (l.iter _ t.syscalls.stats.entries)
  panel r network o t = draw_network l c.target (r.shown - c.start) (l.iter _ t.connections.entries)
  panel r memory o t =
      draw_memory l.floats r.sys c.target (r.shown - c.start) c.memory_target t.mem_events
  panel r files o t = draw_files l.floats c.target (r.shown - c.start) (l.iter _ t.files.entries)

  unfoldable pub redraw : Round → Session → Progress
  redraw r s =
      if leb c.refresh (r.tested - s.last_draw)
      then if r.draws
        then goes_on (record s {
          last_draw = r.drawn;
          screens = s.screens ++ panel r s.view s.sort_by s.tables ∷ [];
        })
        else broken s
      else goes_on s

  unfoldable pub after_input : Flow → Round → Session → Option Progress
  unfolding redraw
  after_input leaves r s = some (ended s)
  after_input fails r s = some (broken s)
  after_input (stays v o) r s = do
    tables ← poll_events r.rings s.tables
    some (redraw r (record s { view = v; sort_by = o; tables = tables }))

  unfoldable pub round : Round → Session → Option Progress
  unfolding after_input
  round r s =
      if r.requested
      then some (ended s)
      else after_input (on_input r.polled r.event s.view s.sort_by) r s

  abbrev pub continue_ : Progress → (Session → Option Progress) → Option Progress
  continue_ (goes_on s) k = k s
  continue_ (ended s) k = some (ended s)
  continue_ (broken s) k = some (broken s)

  -- The rounds one after the other, until the function returns or no round is left.
  unfoldable pub rounds : List Round → Session → Option Progress
  rounds [] s = some (goes_on s)
  rounds (r ∷ rs) s = do p ← round r s; continue_ p (λ s'. rounds rs s')

  -- `now` is the clock when `last_draw` is set, and `again` the one that `unwrap_or_else` reads;
  -- `checked_sub` gives no instant before the clock's first.
  abbrev pub checked_sub : ℕ → ℕ → Option ℕ
  checked_sub now d = if leb d now then some (now - d) else none

  unfoldable pub run_loop : ℕ → ℕ → Tables → List Round → Option Progress
  run_loop now again tables rs = rounds rs (record {
    view = syscalls;
    sort_by = by_time;
    last_draw = or_default again (checked_sub now c.refresh);
    tables = tables;
    screens = [];
  })
