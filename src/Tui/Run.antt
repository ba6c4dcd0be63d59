-- ===== src/Tui/Run.antt =====
-- peekbeam/src/tui.rs, `run`: the calls that prepare the terminal, the loop, and the calls that put
-- the terminal back. Each call may fail, and `?` returns then.
use peekbeam.Prelude.{ℕ, Bool, Option, some, List, [], ◌∷◌, ◌++◌, if◌then◌else◌}
use peekbeam.Userspace.Stats.{Tables}
use peekbeam.Userspace.Drain.{◌>>=◌}
use peekbeam.Libs.{Libs}
use peekbeam.Tui.Loop.{Setup, Round, Session, Progress, goes_on, ended, broken, run_loop}

-- The calls in `run`; `install` is `signals::install`, which registers the handlers of SIGINT and
-- SIGTERM (peekbeam/src/signals.rs).
pub data Call : Type 0 where
  install enable_raw_mode enter_alternate_screen new_terminal : Call
  disable_raw_mode leave_alternate_screen show_cursor : Call

-- `run` is still in its loop, it has returned what `run_loop` returned, or the error of a call.
pub data Status : Type 0 where
  looping : Session → Status
  finished : Session → Status
  loop_failed : Session → Status
  call_failed : Call → Status

-- The calls that have succeeded, in their order, and where `run` is.
pub record Report : Type 0 where
  pub calls : List Call
  pub status : Status

module _ (succeeds : Call → Bool) where
  -- `call()?` and the rest
  unfoldable pub call : Call → (List Call → Option Report) → List Call → Option Report
  call c rest calls =
      if succeeds c
      then rest (calls ++ c ∷ [])
      else some (record { calls = calls; status = call_failed c })

  unfoldable pub restore : Status → List Call → Option Report
  restore status = call disable_raw_mode (
      call leave_alternate_screen
        (call show_cursor (λ calls. some (record { calls = calls; status = status }))))

  unfoldable pub after_loop : List Call → Progress → Option Report
  unfolding restore
  after_loop calls (goes_on s) = some (record { calls = calls; status = looping s })
  after_loop calls (ended s) = restore (finished s) calls
  after_loop calls (broken s) = restore (loop_failed s) calls

  unfoldable pub set_up : (List Call → Option Report) → Option Report
  set_up rest =
      call install (call enable_raw_mode (call enter_alternate_screen (call new_terminal rest))) []

  unfoldable pub run : Libs → Setup → ℕ → ℕ → Tables → List Round → Option Report
  unfolding set_up after_loop
  run l c now again tables rs =
      set_up (λ calls. do p ← run_loop l c now again tables rs; after_loop calls p)
