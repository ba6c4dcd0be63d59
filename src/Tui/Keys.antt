-- ===== src/Tui/Keys.antt =====
-- peekbeam/src/tui.rs, `run_loop`: what an event does to the view and to the order of the rows.
-- `crossterm` gives the events.
use peekbeam.Prelude.{ℕ, Bool, true, false, ◌&&◌, Option, none, some, nat_beq, if◌then◌else◌}
use peekbeam.Tui.Syscalls.{SortBy, by_count, by_time}

pub data View : Type 0 where
  syscalls network memory files : View

-- The `KeyCode`s that the source tells apart, and any other.
pub data KeyCode : Type 0 where
  char : ℕ → KeyCode
  esc tab another_code : KeyCode

pub data KeyEventKind : Type 0 where
  press repeat release : KeyEventKind

-- `control` is `modifiers.contains(CONTROL)`.
pub record Key : Type 0 where
  pub kind : KeyEventKind
  pub key_code : KeyCode
  pub control : Bool

pub data Event : Type 0 where
  key : Key → Event
  another_event : Event

-- The loop goes on with a view and an order, it is left by `break`, or by `?`.
pub data Flow : Type 0 where
  stays : View → SortBy → Flow
  leaves fails : Flow

abbrev pub next_view : View → View
next_view syscalls = network
next_view network = memory
next_view memory = files
next_view files = syscalls

abbrev pub toggled : SortBy → SortBy
toggled by_count = by_time
toggled by_time = by_count

abbrev pub is_syscalls : View → Bool
is_syscalls syscalls = true
is_syscalls _ = false

-- 'c', 'q' and 's'
abbrev letter_c : ℕ
letter_c = 99

abbrev letter_q : ℕ
letter_q = 113

abbrev letter_s : ℕ
letter_s = 115

-- the `match key.code`
unfoldable pub on_press : KeyCode → Bool → View → SortBy → Flow
on_press (char c) control v o =
    if nat_beq c letter_q
    then leaves
    else if nat_beq c letter_c && control
    then leaves
    else if nat_beq c letter_s && is_syscalls v
    then stays v (toggled o)
    else stays v o
on_press esc control v o = leaves
on_press tab control v o = stays (next_view v) o
on_press another_code control v o = stays v o

unfoldable pub on_kind : KeyEventKind → KeyCode → Bool → View → SortBy → Flow
unfolding on_press
on_kind press c control v o = on_press c control v o
on_kind _ c control v o = stays v o

-- `event::read()?`, which is `none` if it fails
unfoldable pub on_event : Option Event → View → SortBy → Flow
unfolding on_kind
on_event none v o = fails
on_event (some another_event) v o = stays v o
on_event (some (key k)) v o = on_kind k.kind k.key_code k.control v o

-- `event::poll(..)?`, and the event if there is one
unfoldable pub on_input : Option Bool → Option Event → View → SortBy → Flow
unfolding on_event
on_input none event v o = fails
on_input (some false) event v o = stays v o
on_input (some true) event v o = on_event event v o
