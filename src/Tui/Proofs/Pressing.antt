-- ===== src/Tui/Proofs/Pressing.antt =====
-- What one key does to the view and to the order of the rows (peekbeam/src/tui.rs, `run_loop`).
use peekbeam.Prelude.{
  ℕ, zero, suc, ◌+◌, ◌%◌, ◌&&◌, ◌≡◌, refl, Bool, true, false, Option, none, some, List, [], ◌∷◌,
  nat_beq, if◌then◌else◌, Bool-cases, inl, inr,
}
use peekbeam.Tui.Syscalls.{SortBy}
use peekbeam.Tui.Keys.{
  View, syscalls, network, memory, files, KeyCode, char, esc, tab, another_code, KeyEventKind,
  press, repeat, release, Event, key, another_event, Flow, stays, next_view, toggled, is_syscalls,
  on_press, on_kind, on_event, on_input,
}
use peekbeam.Tui.Loop.{Round}

-- The place of a view in the cycle.
abbrev pub number : View → ℕ
number syscalls = 0
number network = 1
number memory = 2
number files = 3

-- The key that is pressed in a round.
abbrev pub pressed_kind : KeyEventKind → KeyCode → Option KeyCode
pressed_kind press c = some c
pressed_kind _ c = none

abbrev pub pressed : Option Bool → Option Event → Option KeyCode
pressed (some true) (some (key k)) = pressed_kind k.kind k.key_code
pressed _ _ = none

-- The presses of Tab.
abbrev pub tab_count : Option KeyCode → ℕ
tab_count (some tab) = 1
tab_count _ = 0

abbrev pub tabs : List Round → ℕ
tabs [] = 0
tabs (r ∷ rs) = tab_count (pressed r.polled r.event) + tabs rs

-- The presses of 's' while the Syscalls panel is shown: after `n` presses of Tab.
abbrev pub toggle_count : Option KeyCode → ℕ → ℕ
toggle_count (some (char c)) n = if nat_beq c 115 then if nat_beq (n % 4) 0 then 1 else 0 else 0
toggle_count _ n = 0

abbrev pub toggles : ℕ → List Round → ℕ
toggles n [] = 0
toggles n (r ∷ rs) =
    toggle_count (pressed r.polled r.event) n
    + toggles (n + tab_count (pressed r.polled r.event)) rs

abbrev pub toggled_times : ℕ → SortBy → SortBy
toggled_times zero o = o
toggled_times (suc n) o = toggled_times n (toggled o)

-- What one key does.
pub record Follows (k : Option KeyCode) (v v' : View) (o o' : SortBy) : Type 0 where
  pub view : number v' ≡ (number v + tab_count k) % 4
  pub order : o' ≡ toggled_times (toggle_count k (number v)) o

next_view-number : (v : View) → number (next_view v) ≡ (number v + 1) % 4
next_view-number syscalls = refl
next_view-number network = refl
next_view-number memory = refl
next_view-number files = refl

pub number-mod : (v : View) → number v ≡ (number v + 0) % 4
number-mod syscalls = refl
number-mod network = refl
number-mod memory = refl
number-mod files = refl

abbrev pub Goes : Option KeyCode → View → SortBy → Flow → Type 0
Goes k v o (stays v' o') = Follows k v v' o o'
Goes k v o _ = Unit

-- A key that changes nothing.
unchanged :
    (k : Option KeyCode) (v : View) (o : SortBy)
    → tab_count k ≡ 0
    → toggle_count k (number v) ≡ 0
    → Follows k v v o o
unchanged k v o t g = record { view = rw t (number-mod v); order = rw g refl }

-- A press of 's'.
char_s-Goes :
    (c : ℕ) (v : View) (o : SortBy)
    → nat_beq c 115 ≡ true
    → Goes (some (char c)) v o (if is_syscalls v then stays v (toggled o) else stays v o)
char_s-Goes c syscalls o is_s = record { view = refl; order = rw is_s refl }
char_s-Goes c network o is_s = unchanged (some (char c)) network o refl (rw is_s refl)
char_s-Goes c memory o is_s = unchanged (some (char c)) memory o refl (rw is_s refl)
char_s-Goes c files o is_s = unchanged (some (char c)) files o refl (rw is_s refl)

on_press-Goes :
    (c : KeyCode) (control : Bool) (v : View) (o : SortBy)
    → Goes (some c) v o (on_press c control v o)
unfolding on_press
on_press-Goes (char c) control v o = elim (Bool-cases (nat_beq c 113)) [
  | inl q ↦ rw q tt
  | inr not_q ↦ elim (Bool-cases (nat_beq c 99 && control)) [
    | inl c_control ↦ rw (not_q, c_control) tt
    | inr not_c ↦ elim (Bool-cases (nat_beq c 115)) [
      | inl is_s ↦ rw (not_q, not_c, is_s) (char_s-Goes c v o is_s)
      | inr not_s ↦ rw (not_q, not_c, not_s) (unchanged (some (char c)) v o refl (rw not_s refl))
    ]
  ]
]
on_press-Goes esc control v o = tt
on_press-Goes tab control v o = record { view = next_view-number v; order = refl }
on_press-Goes another_code control v o = unchanged (some another_code) v o refl refl

on_kind-Goes :
    (kind : KeyEventKind) (c : KeyCode) (control : Bool) (v : View) (o : SortBy)
    → Goes (pressed_kind kind c) v o (on_kind kind c control v o)
unfolding on_kind
on_kind-Goes press c control v o = on_press-Goes c control v o
on_kind-Goes repeat c control v o = unchanged none v o refl refl
on_kind-Goes release c control v o = unchanged none v o refl refl

pub on_input-Goes :
    (p : Option Bool) (e : Option Event) (v : View) (o : SortBy)
    → Goes (pressed p e) v o (on_input p e v o)
unfolding on_input on_event
on_input-Goes none e v o = tt
on_input-Goes (some false) e v o = unchanged none v o refl refl
on_input-Goes (some true) none v o = tt
on_input-Goes (some true) (some (key k)) v o = on_kind-Goes k.kind k.key_code k.control v o
on_input-Goes (some true) (some another_event) v o = unchanged none v o refl refl
