-- ===== src/Startup/View.antt =====
-- peekbeam/src/main.rs, the end of `main`: the loop of `--json` and `--duration`, or the terminal
-- interface.
use peekbeam.Prelude.{ℕ, Bool, Option, none, some, List, [], if◌then◌else◌}
use peekbeam.Data.Text.{Text}
use peekbeam.Ebpf.State.{is_some}
use peekbeam.Signals
use peekbeam.Signals.{Signal, Shutdown}
use peekbeam.Startup.{Target, Args}
use peekbeam.Startup.Label.{is_headless, headless_settings, tui_setup}
use peekbeam.Libs.{Libs}
use peekbeam.Summary.{Summary}
use peekbeam.Userspace.Stats.{Tables}
use peekbeam.Userspace.Headless.{Settings, Tick, Turn, sample}
use peekbeam.Tui.Loop.{Setup, Round}
use peekbeam.Tui.Run
use peekbeam.Tui.Run.{Call, Report}

-- `main` panics in the label, it cannot register the signals, or it is in one of the two views.
pub data Viewed : Type 0 where
  panicked : Viewed
  not_installed : Viewed
  headless : Option Turn → Viewed
  interactive : Option Report → Viewed

module _ (l : Libs) (serde : Summary l.floats → Option Text) (registers : Signal → Bool)
    (succeeds : Call → Bool) (start again : ℕ) where
  -- `start` and `last_emit` are read one after the other; the latter is `again`.
  run_headless : Option Settings → Tables → List Tick → Option Shutdown → Viewed
  run_headless none tables ticks flag = panicked
  run_headless (some m) tables ticks none = not_installed
  run_headless (some m) tables ticks (some flag) =
      headless
        (sample l serde m ticks (record { last_emit = again; tables = tables; printed = [] }))

  -- `signals::install` is the first call of `tui::run`.
  calls : Call → Bool
  calls Call.install = is_some (Signals.install registers)
  calls c = succeeds c

  run_tui : Option Setup → Tables → List Round → Viewed
  unfolding calls
  run_tui none tables rounds = panicked
  run_tui (some c) tables rounds = interactive (Run.run calls l c start again tables rounds)

  unfoldable pub view : Args → Target → Tables → List Tick → List Round → Viewed
  unfolding run_headless run_tui
  view a t tables ticks rounds =
      if is_headless a
      then run_headless (headless_settings a t start) tables ticks (Signals.install registers)
      else run_tui (tui_setup a t start) tables rounds
