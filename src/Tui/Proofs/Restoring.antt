-- ===== src/Tui/Proofs/Restoring.antt =====
-- The state in which `run` of peekbeam/src/tui.rs leaves the terminal, on each of its paths.
use mathlib.Core.Path.{subst}
use peekbeam.Prelude.{
  ℕ, ◌≡◌, refl, sym, Bool, true, false, Option, none, some, List, [], ◌∷◌, ◌++◌, foldl, Bool-cases,
  inl, inr,
}
use peekbeam.Userspace.Stats.{Tables}
use peekbeam.Userspace.Drain.{◌>>=◌}
use peekbeam.Libs.{Libs}
use peekbeam.Tui.Loop.{Setup, Round, Progress, goes_on, ended, broken, run_loop}
use peekbeam.Tui.Run.{
  Call, install, enable_raw_mode, enter_alternate_screen, new_terminal, disable_raw_mode,
  leave_alternate_screen, show_cursor, Status, looping, finished, loop_failed, call_failed, Report,
  call, restore, after_loop, set_up, run,
}

-- Raw mode is on from the call that enables it to the one that disables it.
abbrev pub raw_step : Bool → Call → Bool
raw_step b enable_raw_mode = true
raw_step b disable_raw_mode = false
raw_step b _ = b

abbrev pub raw : List Call → Bool
raw calls = foldl raw_step false calls

abbrev pub alternate_step : Bool → Call → Bool
alternate_step b enter_alternate_screen = true
alternate_step b leave_alternate_screen = false
alternate_step b _ = b

abbrev pub alternate : List Call → Bool
alternate calls = foldl alternate_step false calls

-- Where `run` leaves raw mode on: in the loop, if a later call of the set-up fails, and if the call
-- that disables it fails.
abbrev pub raw_left : Status → Bool
raw_left (looping s) = true
raw_left (call_failed enter_alternate_screen) = true
raw_left (call_failed new_terminal) = true
raw_left (call_failed disable_raw_mode) = true
raw_left _ = false

abbrev pub alternate_left : Status → Bool
alternate_left (looping s) = true
alternate_left (call_failed new_terminal) = true
alternate_left (call_failed disable_raw_mode) = true
alternate_left (call_failed leave_alternate_screen) = true
alternate_left _ = false

-- The terminal is as the status says.
pub record LeftAs (rep : Report) : Type 0 where
  pub raw_mode : raw rep.calls ≡ raw_left rep.status
  pub alternate_screen : alternate rep.calls ≡ alternate_left rep.status

abbrev Left : Option Report → Type 0
Left none = Unit
Left (some rep) = LeftAs rep

abbrev prepared : List Call
prepared = install ∷ enable_raw_mode ∷ enter_alternate_screen ∷ new_terminal ∷ []

module _ (succeeds : Call → Bool) where
  -- A call that may fail.
  call-Left :
      (c : Call) (rest : List Call → Option Report) (calls : List Call)
      → LeftAs (record { calls = calls; status = call_failed c })
      → Left (rest (calls ++ c ∷ []))
      → Left (call succeeds c rest calls)
  unfolding call
  call-Left c rest calls f k = elim (Bool-cases (succeeds c)) [
    | inl worked ↦ rw worked k
    | inr failed_ ↦ rw failed_ f
  ]

  restore-Left :
      (status : Status)
      → raw_left status ≡ false
      → alternate_left status ≡ false
      → Left (restore succeeds status prepared)
  unfolding restore
  restore-Left status r a =
      call-Left disable_raw_mode _ _ (record { raw_mode = refl; alternate_screen = refl })
        (call-Left leave_alternate_screen _ _ (record { raw_mode = refl; alternate_screen = refl })
          (call-Left show_cursor _ _ (record { raw_mode = refl; alternate_screen = refl })
            (record { raw_mode = sym r; alternate_screen = sym a })))

  after_loop-Left : (p : Progress) → Left (after_loop succeeds prepared p)
  unfolding after_loop
  after_loop-Left (goes_on s) = record { raw_mode = refl; alternate_screen = refl }
  after_loop-Left (ended s) = restore-Left (finished s) refl refl
  after_loop-Left (broken s) = restore-Left (loop_failed s) refl refl

  set_up-Left :
      (rest : List Call → Option Report) → Left (rest prepared) → Left (set_up succeeds rest)
  unfolding set_up
  set_up-Left rest k =
      call-Left install _ _ (record { raw_mode = refl; alternate_screen = refl })
        (call-Left enable_raw_mode _ _ (record { raw_mode = refl; alternate_screen = refl })
          (call-Left enter_alternate_screen _ _
            (record { raw_mode = refl; alternate_screen = refl })
            (call-Left new_terminal _ _ (record { raw_mode = refl; alternate_screen = refl }) k)))

  -- Whichever calls succeed and whatever the loop returns, `run` leaves raw mode on exactly in the
  -- loop, if entering the alternate screen or making the terminal fails after raw mode is on, and if
  -- the call that disables it fails; it leaves the alternate screen on exactly in the loop, if making
  -- the terminal fails, if disabling raw mode fails, and if leaving the alternate screen fails.
  pub run-LeftAs :
      (l : Libs) (c : Setup) (now again : ℕ) (tables : Tables) (rs : List Round) (rep : Report)
      → run succeeds l c now again tables rs ≡ some rep
      → LeftAs rep
  unfolding run
  run-LeftAs l c now again tables rs rep e = subst Left e (
      set_up-Left _
        (elim (run_loop l c now again tables rs)
          as (λ o. Left (do p ← o; after_loop succeeds prepared p)) [
            | none ↦ tt
            | some p ↦ after_loop-Left p
          ]))
