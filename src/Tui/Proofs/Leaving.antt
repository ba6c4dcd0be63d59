-- ===== src/Tui/Proofs/Leaving.antt =====
-- When `run_loop` of peekbeam/src/tui.rs returns.
use peekbeam.Prelude.{
  ◌-◌, ◌≡◌, refl, ◌↔◌, Bool, true, false, ◌&&◌, ◌||◌, Option, none, some, List, [], ◌∷◌, nat_beq,
  leb, if◌then◌else◌, Bool-cases, inl, inr,
}
use peekbeam.Data.Lists.{All}
use peekbeam.Userspace.Stats.{Tables}
use peekbeam.Userspace.Drain.{poll_events, ◌>>=◌}
use peekbeam.Libs.{Libs}
use peekbeam.Tui.Syscalls.{SortBy}
use peekbeam.Tui.Keys.{
  View, KeyCode, char, esc, tab, another_code, KeyEventKind, press, repeat, release, Event, key,
  another_event, Flow, stays, leaves, fails, is_syscalls, on_press, on_kind, on_event, on_input,
}
use peekbeam.Tui.Loop.{
  Setup, Round, Session, Progress, goes_on, ended, broken, redraw, after_input, round, rounds,
  continue_,
}

-- 'q', Esc and Ctrl+C
abbrev pub quit_code : KeyCode → Bool → Bool
quit_code (char c) control = nat_beq c 113 || (nat_beq c 99 && control)
quit_code esc control = true
quit_code tab control = false
quit_code another_code control = false

abbrev pub quit_kind : KeyEventKind → KeyCode → Bool → Bool
quit_kind press c control = quit_code c control
quit_kind _ c control = false

abbrev pub quit_event : Option Event → Bool
quit_event (some (key k)) = quit_kind k.kind k.key_code k.control
quit_event _ = false

abbrev pub quits : Option Bool → Option Event → Bool
quits (some true) e = quit_event e
quits _ e = false

-- A signal has come, or a quit key is pressed.
abbrev pub asks : Round → Bool
asks r = r.requested || quits r.polled r.event

abbrev pub any_asks : List Round → Bool
any_asks [] = false
any_asks (r ∷ rs) = asks r || any_asks rs

-- The terminal answers, and the items of the ring buffers are records.
abbrev pub Answers : Option Bool → Option Event → Type 0
Answers none e = ⊥
Answers (some false) e = Unit
Answers (some true) none = ⊥
Answers (some true) (some e) = Unit

pub record Works (r : Round) : Type 0 where
  pub answers : Answers r.polled r.event
  pub polls : (t : Tables) → (t' : Tables) × (poll_events r.rings t ≡ some t')
  pub draws : r.draws ≡ true

-- A flow that leaves the loop where `b` holds and goes on where it does not.
abbrev LeavesIf : Bool → Flow → Type 0
LeavesIf true leaves = Unit
LeavesIf false (stays v o) = Unit
LeavesIf _ _ = ⊥

on_press-LeavesIf :
    (c : KeyCode) (control : Bool) (v : View) (o : SortBy)
    → LeavesIf (quit_code c control) (on_press c control v o)
unfolding on_press
on_press-LeavesIf (char c) control v o = elim (Bool-cases (nat_beq c 113)) [
  | inl q ↦ rw q tt
  | inr not_q ↦ elim (Bool-cases (nat_beq c 99 && control)) [
    | inl c_control ↦ rw (not_q, c_control) tt
    | inr not_c ↦ elim (Bool-cases (nat_beq c 115 && is_syscalls v)) [
      | inl is_s ↦ rw (not_q, not_c, is_s) tt
      | inr not_s ↦ rw (not_q, not_c, not_s) tt
    ]
  ]
]
on_press-LeavesIf esc control v o = tt
on_press-LeavesIf tab control v o = tt
on_press-LeavesIf another_code control v o = tt

on_kind-LeavesIf :
    (kind : KeyEventKind) (c : KeyCode) (control : Bool) (v : View) (o : SortBy)
    → LeavesIf (quit_kind kind c control) (on_kind kind c control v o)
unfolding on_kind
on_kind-LeavesIf press c control v o = on_press-LeavesIf c control v o
on_kind-LeavesIf repeat c control v o = tt
on_kind-LeavesIf release c control v o = tt

on_input-LeavesIf :
    (p : Option Bool) (e : Option Event) (v : View) (o : SortBy)
    → Answers p e
    → LeavesIf (quits p e) (on_input p e v o)
unfolding on_input on_event
on_input-LeavesIf none e v o a = elim a [ ]
on_input-LeavesIf (some false) e v o a = tt
on_input-LeavesIf (some true) none v o a = elim a [ ]
on_input-LeavesIf (some true) (some (key k)) v o a =
    on_kind-LeavesIf k.kind k.key_code k.control v o
on_input-LeavesIf (some true) (some another_event) v o a = tt

module _ (l : Libs) (c : Setup) where
  -- The function returns where `b` holds and goes on where it does not.
  abbrev EndsIf : Bool → Option Progress → Type 0
  EndsIf true (some (ended s)) = Unit
  EndsIf false (some (goes_on s)) = Unit
  EndsIf _ _ = ⊥

  after_input-EndsIf :
      (b : Bool) (f : Flow) (r : Round) (s : Session)
      → Works r
      → LeavesIf b f
      → EndsIf b (after_input l c f r s)
  unfolding after_input redraw
  after_input-EndsIf true leaves r s w h = tt
  after_input-EndsIf true fails r s w h = elim h [ ]
  after_input-EndsIf true (stays v o) r s w h = elim h [ ]
  after_input-EndsIf false leaves r s w h = elim h [ ]
  after_input-EndsIf false fails r s w h = elim h [ ]
  after_input-EndsIf false (stays v o) r s w h =
      let (t, got) = w.polls s.tables in
      rw (got, w.draws)
        (elim (Bool-cases (leb c.refresh (r.tested - s.last_draw))) [
          | inl due ↦ rw due tt
          | inr early ↦ rw early tt
        ])

  round-EndsIf : (r : Round) (s : Session) → Works r → EndsIf (asks r) (round l c r s)
  unfolding round
  round-EndsIf r s w =
      elim r.requested
        as (λ asked. EndsIf (asked || quits r.polled r.event) (
          if asked
          then some (ended s)
          else after_input l c (on_input r.polled r.event s.view s.sort_by) r s)) [
            | true ↦ tt
            | false ↦
                after_input-EndsIf _ _ r s w
                  (on_input-LeavesIf r.polled r.event s.view s.sort_by w.answers)
          ]

  and_then :
      (b : Bool) (r : Round) (rs : List Round) (o : Option Progress)
      → EndsIf b o
      → ((s1 : Session) → EndsIf (any_asks rs) (rounds l c rs s1))
      → EndsIf (b || any_asks rs) (do p ← o; continue_ l c p (λ s1. rounds l c rs s1))
  and_then true r rs none h rest = elim h [ ]
  and_then true r rs (some (goes_on s1)) h rest = elim h [ ]
  and_then true r rs (some (ended s1)) h rest = tt
  and_then true r rs (some (broken s1)) h rest = elim h [ ]
  and_then false r rs none h rest = elim h [ ]
  and_then false r rs (some (goes_on s1)) h rest = rest s1
  and_then false r rs (some (ended s1)) h rest = elim h [ ]
  and_then false r rs (some (broken s1)) h rest = elim h [ ]

  rounds-EndsIf :
      (rs : List Round) (s : Session) → All Works rs → EndsIf (any_asks rs) (rounds l c rs s)
  unfolding rounds
  rounds-EndsIf [] s w = tt
  rounds-EndsIf (r ∷ rs) s w =
      and_then (asks r) r rs (round l c r s) (round-EndsIf r s w.0) (λ s1. rounds-EndsIf rs s1 w.1)

  ends_iff :
      (b : Bool) (o : Option Progress)
      → EndsIf b o
      → ((s' : Session) × (o ≡ some (ended s'))) ↔ (b ≡ true)
  ends_iff true none h = elim h [ ]
  ends_iff true (some (goes_on s)) h = elim h [ ]
  ends_iff true (some (ended s)) h = (λ e. refl, λ e. (s, refl))
  ends_iff true (some (broken s)) h = elim h [ ]
  ends_iff false none h = elim h [ ]
  ends_iff false (some (goes_on s)) h = (λ p. let e = p.1 in cc e, λ e. cc e)
  ends_iff false (some (ended s)) h = elim h [ ]
  ends_iff false (some (broken s)) h = elim h [ ]

  -- As long as the terminal answers and the items of the ring buffers are records, the loop returns
  -- `Ok(())` if and only if in some round a signal has come or a quit key is pressed.
  pub quits_iff :
      (rs : List Round) (s : Session)
      → All Works rs
      → ((s' : Session) × (rounds l c rs s ≡ some (ended s'))) ↔ (any_asks rs ≡ true)
  quits_iff rs s w = ends_iff (any_asks rs) (rounds l c rs s) (rounds-EndsIf rs s w)
