-- ===== src/Signals.antt =====
-- peekbeam/src/signals.rs: the flag that SIGINT and SIGTERM set. `signal_hook` registers a handler that
-- sets the flag, or fails; which signals have come is given.
use peekbeam.Prelude.{Bool, true, false, ◌||◌, Option, none, some, List, [], ◌∷◌, if◌then◌else◌}

pub data Signal : Type 0 where
  sigint sigterm another_signal : Signal

abbrev same_signal : Signal → Signal → Bool
same_signal sigint sigint = true
same_signal sigterm sigterm = true
same_signal another_signal another_signal = true
same_signal _ _ = false

-- The flag, by the signals that have a handler which sets it.
abbrev pub Shutdown : Type 0
Shutdown = List Signal

unfoldable pub install : (Signal → Bool) → Option Shutdown
install registers =
    if registers sigint
    then if registers sigterm then some (sigint ∷ sigterm ∷ []) else none
    else none

abbrev handles : Shutdown → Signal → Bool
handles [] s = false
handles (h ∷ hs) s = same_signal h s || handles hs s

-- The flag is set when one of the signals so far has a handler.
unfoldable pub requested : Shutdown → List Signal → Bool
requested flag [] = false
requested flag (s ∷ come) = handles flag s || requested flag come
