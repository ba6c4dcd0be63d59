-- ===== src/Startup/Label.antt =====
-- peekbeam/src/main.rs, `Target::label`, and the values that `main` hands to the views.
use peekbeam.Prelude.{
  ℕ, zero, suc, ◌-◌, ◌*◌, Bool, ◌||◌, Option, none, some, [], ◌∷◌, leb, ltb, if◌then◌else◌,
}
use peekbeam.Data.Text.{Text, text, decimal, concat}
use peekbeam.Ebpf.State.{is_some}
use peekbeam.Startup.{Target, process, container, pod, memory_target, Args}
use peekbeam.Userspace.Drain.{◌>>=◌}
use peekbeam.Userspace.Headless.{Settings}
use peekbeam.Tui.Loop.{Setup}

-- The bytes of a character in UTF-8.
unfoldable pub len_utf8 : ℕ → ℕ
len_utf8 c = if ltb c 0x80 then 1 else if ltb c 0x800 then 2 else if ltb c 0x10000 then 3 else 4

-- `&s[..n.min(s.len())]`: none stands for the panic where `n` bytes end inside a character.
unfoldable pub slice_to : ℕ → Text → Option Text
unfolding len_utf8
slice_to n [] = some []
slice_to zero (c ∷ cs) = some []
slice_to (suc n) (c ∷ cs) =
    let rest = slice_to (suc n - len_utf8 c) cs in
    if leb (len_utf8 c) (suc n) then (do r ← rest; some (c ∷ r)) else none

unfoldable pub label : Target → Option Text
unfolding slice_to
label (process pid) = some (concat (text "PID " ∷ decimal pid ∷ []))
label (container c) = do
  id ← slice_to 12 c.full_id
  some (concat (text "container " ∷ id ∷ text " (cgroup " ∷ decimal c.cgroup_id ∷ text ")" ∷ []))
label (pod name inner) =
    some (concat (text "pod " ∷ name ∷ text " (cgroup " ∷ decimal inner.cgroup_id ∷ text ")" ∷ []))

-- `args.json || args.duration.is_some()`
unfoldable pub is_headless : Args → Bool
is_headless a = a.json || is_some a.duration

-- `Duration::from_secs` and `Duration::from_millis`, in nanoseconds
abbrev nanos_of_secs : Option ℕ → Option ℕ
nanos_of_secs none = none
nanos_of_secs (some d) = some (d * 1000000000)

-- What `headless::run` and `tui::run` are called with; `start` is the clock in them.
unfoldable pub headless_settings : Args → Target → ℕ → Option Settings
unfolding label
headless_settings a t start = do
  target ← label t
  some (record {
    target = target;
    memory_target = memory_target t;
    duration = nanos_of_secs a.duration;
    json = a.json;
    refresh = a.refresh_ms * 1000000;
    start = start;
  })

unfoldable pub tui_setup : Args → Target → ℕ → Option Setup
unfolding label
tui_setup a t start = do
  target ← label t
  some (record {
    target = target;
    memory_target = memory_target t;
    refresh = a.refresh_ms * 1000000;
    start = start;
  })
