-- ===== src/Userspace/Headless.antt =====
-- peekbeam/src/headless.rs: the loop of `--json` and `--duration`. A turn of the loop is given what it
-- meets: the items in the ring buffers, the flag of the signals (peekbeam/src/signals.rs), the readings
-- of the clock, in nanoseconds, and the machine as it is when a summary is built. The serializer of
-- `serde_json` is a parameter.
use peekbeam.Prelude.{
  ℕ, ◌-◌, ◌/◌, Bool, Option, none, some, List, [], ◌∷◌, ◌++◌, leb, if◌then◌else◌,
}
use peekbeam.Data.Text.{Text}
use peekbeam.Userspace.Stats.{Tables}
use peekbeam.Userspace.Drain.{Rings, poll_events, ◌>>=◌}
use peekbeam.Container.{System}
use peekbeam.Startup.{MemoryTarget}
use peekbeam.Libs.{Libs}
use peekbeam.Summary.{Summary, build, to_json}
use peekbeam.Summary.Plain.{to_plain_text}

-- The arguments of `run` that do not change, and `start`.
pub record Settings : Type 0 where
  pub target : Text
  pub memory_target : MemoryTarget
  pub duration : Option ℕ
  pub json : Bool
  pub refresh : ℕ
  pub start : ℕ

-- One turn: the clock at the tests, the clock and the machine when a summary is built (one at most in
-- a turn, after the loop is left or not), and the clock after it is printed.
pub record Tick : Type 0 where
  pub rings : Rings
  pub requested : Bool
  pub tested : ℕ
  pub built : ℕ
  pub sys : System
  pub emitted : ℕ

-- `last_emit`, the tables, and what was printed so far.
pub record Loop : Type 0 where
  pub last_emit : ℕ
  pub tables : Tables
  pub printed : List Text

-- The loop goes on, or the function has returned.
pub data Turn : Type 0 where
  next returned : Loop → Turn

-- A returned function has no further turn.
abbrev pub proceed : Turn → (Loop → Option Turn) → Option Turn
proceed (next l) k = k l
proceed (returned l) k = some (returned l)

-- `start.elapsed().as_secs()`
abbrev pub seconds : Settings → ℕ → ℕ
seconds m now = (now - m.start) / 1000000000

module _ (libs : Libs) (serde : Summary libs.floats → Option Text) where
  unfoldable pub build_summary : Settings → Tick → Tables → Summary libs.floats
  build_summary m t tables = build libs t.sys m.target (seconds m t.built) tables m.memory_target

  -- after the loop
  unfoldable pub finish : Settings → Tick → Loop → Turn
  finish m t l =
      let summary = build_summary m t l.tables in
      returned (record l {
        printed =
            l.printed
            ++ (if m.json then to_json serde summary else to_plain_text libs.floats summary) ∷ [];
      })

  -- `println!("{}", summary.to_json()); last_emit = Instant::now();`
  unfoldable pub emit : Settings → Tick → Loop → Loop
  emit m t l = record l {
    last_emit = t.emitted;
    printed = l.printed ++ to_json serde (build_summary m t l.tables) ∷ [];
  }

  unfoldable pub after_poll : Option ℕ → Settings → Tick → Loop → Turn
  unfolding finish emit
  after_poll (some d) m t l = if leb d (t.tested - m.start) then finish m t l else next l
  after_poll none m t l =
      if leb m.refresh (t.tested - l.last_emit) then next (emit m t l) else next l

  unfoldable pub turn : Settings → Tick → Loop → Option Turn
  unfolding after_poll finish
  turn m t l = do
    tables ← poll_events t.rings l.tables
    some (
        if t.requested
        then finish m t (record l { tables = tables })
        else after_poll m.duration m t (record l { tables = tables }))

  -- The turns one after the other, until the function returns or no turn is left.
  unfoldable pub sample : Settings → List Tick → Loop → Option Turn
  sample m [] l = some (next l)
  sample m (t ∷ ts) l = do u ← turn m t l; proceed u (λ l'. sample m ts l')
