-- ===== src/Userspace/Proofs/Streaming.antt =====
-- The loop of peekbeam/src/headless.rs without `--duration`: how often it prints.
use mathlib.Core.List.{append_assoc, append-nil}
use peekbeam.Prelude.{
  ℕ, ◌+◌, ◌*◌, ◌-◌, ◌≤◌, ◌≡◌, refl, sym, ◌∙◌, true, false, Option, none, some, List, [], ◌∷◌, ◌++◌,
  arith, inl, inr, Bool-cases, leb,
}
use peekbeam.Data.Lists.{All, length}
use peekbeam.Data.Text.{Text}
use peekbeam.Userspace.Stats.{Tables}
use peekbeam.Userspace.Drain.{poll_events}
use peekbeam.Libs.{Libs}
use peekbeam.Summary.{Summary, to_json}
use peekbeam.Userspace.Headless.{
  Settings, Tick, Loop, Turn, next, build_summary, emit, after_poll, turn, sample,
}
use peekbeam.Userspace.Proofs.Sampling.{Polls}

-- No signal comes.
abbrev pub Unasked : Tick → Type 0
Unasked t = t.requested ≡ false

-- The clock does not run backwards.
abbrev pub Steady : ℕ → List Tick → Type 0
Steady now [] = Unit
Steady now (t ∷ ts) = (now ≤ t.tested) × (t.tested ≤ t.emitted) × Steady t.emitted ts

module _ (libs : Libs) (serde : Summary libs.floats → Option Text) (m : Settings) where
  -- The loop goes on and has printed the texts `new`, each at least `refresh` after the one before.
  pub record Streamed (l : Loop) (o : Option Turn) : Type 0 where
    pub after : Loop
    pub new : List Text
    pub result : o ≡ some (next after)
    pub printed : after.printed ≡ l.printed ++ new
    pub rate : l.last_emit + length new * m.refresh ≤ after.last_emit

  -- A turn that prints, and one that does not.
  prints :
      (t : Tick) (ts : List Tick) (l : Loop) (s : Tables)
      → poll_events t.rings l.tables ≡ some s
      → t.requested ≡ false
      → m.duration ≡ none
      → leb m.refresh (t.tested - l.last_emit) ≡ true
      → sample libs serde m (t ∷ ts) l
        ≡ sample libs serde m ts (emit libs serde m t (record l { tables = s }))
  unfolding sample turn after_poll
  prints t ts l s got unasked untimed due = ground (arith, got, unasked, untimed, due)

  waits :
      (t : Tick) (ts : List Tick) (l : Loop) (s : Tables)
      → poll_events t.rings l.tables ≡ some s
      → t.requested ≡ false
      → m.duration ≡ none
      → leb m.refresh (t.tested - l.last_emit) ≡ false
      → sample libs serde m (t ∷ ts) l ≡ sample libs serde m ts (record l { tables = s })
  unfolding sample turn after_poll
  waits t ts l s got unasked untimed early = ground (arith, got, unasked, untimed, early)

  Steady-weaken : (a b : ℕ) (ts : List Tick) → a ≤ b → Steady b ts → Steady a ts
  Steady-weaken a b [] h k = k
  Steady-weaken a b (t ∷ ts) h k = let now = k.0 in (omega (arith, h, now), k.1, k.2)

  -- A summary printed in front of the others.
  one_more :
      (t : Tick) (l : Loop) (s : Tables) (o : Option Turn)
      → l.last_emit + m.refresh ≤ t.emitted
      → Streamed (emit libs serde m t (record l { tables = s })) o
      → Streamed l o
  unfolding emit
  one_more t l s o due r = record {
    after = r.after;
    new = to_json serde (build_summary libs serde m t s) ∷ r.new;
    result = r.result;
    printed = r.printed ∙ append_assoc l.printed _ r.new;
    rate = let k = r.rate in let n = length r.new in grind (arith, due, k);
  }

  -- Without `--duration` and as long as no signal comes, if all items of the ring buffers are records
  -- and the clock does not run backwards, the loop goes on, and between its start and the last text it
  -- printed at least the refresh interval passes for each text.
  pub stream_rate :
      (ts : List Tick) (l : Loop)
      → m.duration ≡ none
      → All Polls ts
      → All Unasked ts
      → Steady l.last_emit ts
      → Streamed l (sample libs serde m ts l)
  unfolding sample emit
  stream_rate [] l untimed polls unasked steady = record {
    after = l;
    new = [];
    result = refl;
    printed = sym (append-nil l.printed);
    rate = omega arith;
  }
  stream_rate (t ∷ ts) l untimed polls unasked steady =
      let (s, got) = polls.0 l.tables in
      let now = steady.0 in
      let printed_at = steady.1 in
      elim (Bool-cases (leb m.refresh (t.tested - l.last_emit))) [
        | inl due ↦
            let r =
              stream_rate ts (emit libs serde m t (record l { tables = s })) untimed polls.1
                unasked.1 steady.2 in
            rw (prints t ts l s got unasked.0 untimed due)
              (one_more t l s _ (ground (arith, due, now, printed_at)) r)
        | inr early ↦
            let r =
              stream_rate ts (record l { tables = s }) untimed polls.1 unasked.1
                (Steady-weaken l.last_emit t.emitted ts (omega (arith, now, printed_at))
                  steady.2) in
            rw (waits t ts l s got unasked.0 untimed early) (record {
              after = r.after;
              new = r.new;
              result = r.result;
              printed = r.printed;
              rate = r.rate;
            })
      ]
