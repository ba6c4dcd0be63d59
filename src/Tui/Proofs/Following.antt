-- ===== src/Tui/Proofs/Following.antt =====
-- The view and the order that the keys lead to (peekbeam/src/tui.rs, `run_loop`).
use mathlib.Core.Path.{subst}
use peekbeam.Prelude.{
  ℕ, zero, suc, ◌+◌, ◌-◌, ◌%◌, ◌≡◌, refl, sym, ap, ◌∙◌, arith, true, false, Option, none, some,
  List, [], ◌∷◌, if◌then◌else◌, Bool-cases, inl, inr, leb,
}
use peekbeam.Userspace.Drain.{poll_events, ◌>>=◌}
use peekbeam.Libs.{Libs}
use peekbeam.Tui.Syscalls.{SortBy}
use peekbeam.Tui.Keys.{
  KeyCode, char, esc, tab, another_code, Flow, stays, leaves, fails, toggled, on_input,
}
use peekbeam.Tui.Loop.{
  Setup, Round, Session, Progress, goes_on, ended, broken, redraw, after_input, round, rounds,
  continue_,
}
use peekbeam.Tui.Proofs.Pressing.{
  number, pressed, tab_count, tabs, toggle_count, toggles, toggled_times, Follows, number-mod, Goes,
  on_input-Goes,
}

module _ (l : Libs) (c : Setup) where
  -- What a round does if the loop goes on.
  abbrev Kept : Option KeyCode → Session → Option Progress → Type 0
  Kept k s (some (goes_on s')) = Follows k s.view s'.view s.sort_by s'.sort_by
  Kept k s _ = Unit

  after_input-Kept :
      (k : Option KeyCode) (r : Round) (s : Session) (f : Flow)
      → Goes k s.view s.sort_by f
      → Kept k s (after_input l c f r s)
  unfolding after_input redraw
  after_input-Kept k r s leaves g = tt
  after_input-Kept k r s fails g = tt
  after_input-Kept k r s (stays v o) g =
      elim (poll_events r.rings s.tables)
        as (λ x. Kept k s (do
          tables ← x
          some (redraw l c r (record s { view = v; sort_by = o; tables = tables })))) [
            | none ↦ tt
            | some tables ↦ elim (Bool-cases (leb c.refresh (r.tested - s.last_draw))) [
              | inl due ↦ elim (Bool-cases r.draws) [
                | inl draws ↦ rw (due, draws) g
                | inr fails_ ↦ rw (due, fails_) tt
              ]
              | inr early ↦ rw early g
            ]
          ]

  round-Kept : (r : Round) (s : Session) → Kept (pressed r.polled r.event) s (round l c r s)
  unfolding round
  round-Kept r s =
      elim r.requested
        as (λ asked. Kept (pressed r.polled r.event) s (
          if asked
          then some (ended s)
          else after_input l c (on_input r.polled r.event s.view s.sort_by) r s)) [
            | true ↦ tt
            | false ↦ after_input-Kept _ r s _ (on_input-Goes r.polled r.event s.view s.sort_by)
          ]

  -- What the rounds do together.
  record FollowsAll (rs : List Round) (s s' : Session) : Type 0 where
    view : number s'.view ≡ (number s.view + tabs rs) % 4
    order : s'.sort_by ≡ toggled_times (toggles (number s.view) rs) s.sort_by

  abbrev KeptAll : List Round → Session → Option Progress → Type 0
  KeptAll rs s (some (goes_on s')) = FollowsAll rs s s'
  KeptAll rs s _ = Unit

cast_times : (m n : ℕ) (o : SortBy) → m ≡ n → toggled_times m o ≡ toggled_times n o
cast_times m n o e = ap (λ k. toggled_times k o) e

-- How often the order is turned by two runs of keys.
toggled_times-add :
    (a b : ℕ) (o : SortBy) → toggled_times (a + b) o ≡ toggled_times b (toggled_times a o)
toggled_times-add zero b o = cast_times (zero + b) b o (omega arith)
toggled_times-add (suc a) b o =
    cast_times (suc a + b) (suc (a + b)) o (omega arith) ∙ toggled_times-add a b (toggled o)

-- Four presses of Tab lead back.
toggle_count-mod :
    (k : Option KeyCode) (a b : ℕ) → a % 4 ≡ b % 4 → toggle_count k a ≡ toggle_count k b
toggle_count-mod none a b h = refl
toggle_count-mod (some (char c)) a b h = rw h refl
toggle_count-mod (some esc) a b h = refl
toggle_count-mod (some tab) a b h = refl
toggle_count-mod (some another_code) a b h = refl

toggles-mod : (rs : List Round) (a b : ℕ) → a % 4 ≡ b % 4 → toggles a rs ≡ toggles b rs
toggles-mod [] a b h = refl
toggles-mod (r ∷ rs) a b h =
    let k = pressed r.polled r.event in
    let here = toggle_count-mod k a b h in
    let later = toggles-mod rs (a + tab_count k) (b + tab_count k) (omega (arith, h)) in
    omega (arith, here, later)

module _ (l : Libs) (c : Setup) where
  -- A round in front of others.
  FollowsAll-cons :
      (r : Round) (rs : List Round) (s s1 s' : Session)
      → Follows (pressed r.polled r.event) s.view s1.view s.sort_by s1.sort_by
      → FollowsAll l c rs s1 s'
      → FollowsAll l c (r ∷ rs) s s'
  FollowsAll-cons r rs s s1 s' f g =
      let k = pressed r.polled r.event in
      let first = f.view in
      let rest = g.view in
      let same =
        toggles-mod rs (number s1.view) (number s.view + tab_count k) (omega (arith, first)) in
      record {
        view = omega (arith, first, rest);
        order =
            g.order
            ∙ ap (toggled_times (toggles (number s1.view) rs)) f.order
            ∙ ap (λ n. toggled_times n (toggled_times (toggle_count k (number s.view)) s.sort_by))
                same
            ∙ sym (toggled_times-add (toggle_count k (number s.view)) _ s.sort_by);
      }

  and_then :
      (r : Round) (rs : List Round) (s : Session) (o : Option Progress)
      → Kept l c (pressed r.polled r.event) s o
      → ((s1 : Session) → KeptAll l c rs s1 (rounds l c rs s1))
      → KeptAll l c (r ∷ rs) s (do p ← o; continue_ l c p (λ s1. rounds l c rs s1))
  and_then r rs s none f rest = tt
  and_then r rs s (some (ended s1)) f rest = tt
  and_then r rs s (some (broken s1)) f rest = tt
  and_then r rs s (some (goes_on s1)) f rest =
      elim (rounds l c rs s1) as (λ o. KeptAll l c rs s1 o → KeptAll l c (r ∷ rs) s o) [
        | none ↦ λ g. tt
        | some (ended s') ↦ λ g. tt
        | some (broken s') ↦ λ g. tt
        | some (goes_on s') ↦ λ g. FollowsAll-cons r rs s s1 s' f g
      ]
        (rest s1)

  rounds-KeptAll : (rs : List Round) (s : Session) → KeptAll l c rs s (rounds l c rs s)
  unfolding rounds
  rounds-KeptAll [] s = record { view = number-mod s.view; order = refl }
  rounds-KeptAll (r ∷ rs) s =
      and_then r rs s (round l c r s) (round-Kept l c r s) (λ s1. rounds-KeptAll rs s1)

  -- As long as the loop goes on, the panel shown is the one that the presses of Tab lead to, in the
  -- cycle of the four, and the order of the rows is turned by each press of 's' that comes while the
  -- Syscalls panel is shown and by nothing else.
  pub keys_followed :
      (rs : List Round) (s s' : Session)
      → rounds l c rs s ≡ some (goes_on s')
      → (number s'.view ≡ (number s.view + tabs rs) % 4)
        × (s'.sort_by ≡ toggled_times (toggles (number s.view) rs) s.sort_by)
  keys_followed rs s s' e =
      let f : KeptAll l c rs s (some (goes_on s')) =
        subst (λ o. KeptAll l c rs s o) e (rounds-KeptAll rs s) in
      (f.view, f.order)
