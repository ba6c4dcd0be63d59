-- ===== src/Userspace/Proofs/Sampling.antt =====
-- When the loop of peekbeam/src/headless.rs returns, and what it has printed then.
use peekbeam.Prelude.{
  ℕ, ◌-◌, ◌≤◌, ◌<◌, ◌≡◌, refl, ap, Bool, true, false, Option, some, List, [], ◌∷◌, ◌++◌, arith, inl,
  inr, ◌⊎◌, Bool-cases, leb, if◌then◌else◌,
}
use peekbeam.Data.Lists.{All}
use peekbeam.Data.Text.{Text}
use peekbeam.Userspace.Stats.{Tables}
use peekbeam.Userspace.Drain.{poll_events, ◌>>=◌}
use peekbeam.Libs.{Libs}
use peekbeam.Summary.{Summary, to_json}
use peekbeam.Summary.Plain.{to_plain_text}
use peekbeam.Userspace.Headless.{
  Settings, Tick, Loop, Turn, returned, build_summary, finish, after_poll, turn, sample,
}

-- The items of the ring buffers are records (polling them has a result).
abbrev pub Polls : Tick → Type 0
Polls t = (s : Tables) → (s' : Tables) × (poll_events t.rings s ≡ some s')

-- A turn in which the signal has come or the window of `d` nanoseconds is over.
abbrev pub Ends : Settings → ℕ → List Tick → Type 0
Ends m d [] = ⊥
Ends m d (t ∷ ts) = ((t.requested ≡ true) ⊎ (d ≤ t.tested - m.start)) ⊎ Ends m d ts

-- A turn in which no signal has come and the window is not over.
abbrev pub IsEarly : Settings → ℕ → Tick → Type 0
IsEarly m d t = (t.requested ≡ false) × (t.tested - m.start < d)

-- The ring buffers polled in each turn, one after the other.
abbrev pub poll_all : List Tick → Tables → Option Tables
poll_all [] s = some s
poll_all (t ∷ ts) s = poll_events t.rings s >>= poll_all ts

module _ (libs : Libs) (serde : Summary libs.floats → Option Text) (m : Settings) where
  -- A summary in the form that `json` asks for.
  unfoldable pub final : Bool → Summary libs.floats → Text
  final json s = if json then to_json serde s else to_plain_text libs.floats s

  -- The loop has returned in the turn `t`, the first in which a signal has come or the window of `d`
  -- nanoseconds is over, and it has printed one summary, of the tables after polling up to that turn.
  pub record PrintedOnce (d : ℕ) (ts : List Tick) (l : Loop) (o : Option Turn) : Type 0 where
    pub front : List Tick
    pub t : Tick
    pub back : List Tick
    pub split : ts ≡ front ++ t ∷ back
    pub not_before : All (IsEarly m d) front
    pub ends : (t.requested ≡ true) ⊎ (d ≤ t.tested - m.start)
    pub tables : Tables
    pub polled : poll_all (front ++ t ∷ []) l.tables ≡ some tables
    pub result :
        o
        ≡ some (
            returned (record {
              last_emit = l.last_emit;
              tables = tables;
              printed = l.printed ++ final m.json (build_summary libs serde m t tables) ∷ [];
            }))

  go_on :
      (d : ℕ) (t : Tick) (ts : List Tick) (l : Loop) (s : Tables)
      → poll_events t.rings l.tables ≡ some s
      → t.requested ≡ false
      → m.duration ≡ some d
      → leb d (t.tested - m.start) ≡ false
      → sample libs serde m (t ∷ ts) l ≡ sample libs serde m ts (record l { tables = s })
  unfolding sample turn after_poll
  go_on d t ts l s got unasked timed early = ground (arith, got, unasked, timed, early)

  -- The turn in which the loop returns.
  last_turn :
      (d : ℕ) (t : Tick) (ts : List Tick) (l : Loop) (s : Tables)
      → poll_events t.rings l.tables ≡ some s
      → ((t.requested ≡ true) ⊎ (d ≤ t.tested - m.start))
      → sample libs serde m (t ∷ ts) l
        ≡ some (
            returned (record {
              last_emit = l.last_emit;
              tables = s;
              printed = l.printed ++ final m.json (build_summary libs serde m t s) ∷ [];
            }))
      → PrintedOnce d (t ∷ ts) l (sample libs serde m (t ∷ ts) l)
  last_turn d t ts l s got ends result = record {
    front = [];
    t = t;
    back = ts;
    split = refl;
    not_before = tt;
    ends = ends;
    tables = s;
    polled = rw got refl;
    result = result;
  }

  -- A turn before it.
  turn_before :
      (d : ℕ) (t : Tick) (ts : List Tick) (l : Loop) (s : Tables) (o : Option Turn)
      → poll_events t.rings l.tables ≡ some s
      → IsEarly m d t
      → PrintedOnce d ts (record l { tables = s }) o
      → PrintedOnce d (t ∷ ts) l o
  turn_before d t ts l s o got early r = record {
    front = t ∷ r.front;
    t = r.t;
    back = r.back;
    split = ap (λ us. t ∷ us) r.split;
    not_before = (early, r.not_before);
    ends = r.ends;
    tables = r.tables;
    polled = rw got r.polled;
    result = r.result;
  }

  -- With `--duration`, if all items of the ring buffers are records and in some turn a signal has
  -- come or the window is over, the loop returns in the first such turn, and it has printed exactly
  -- one summary, of the tables after polling up to that turn and in the form that `--json` asks for.
  pub timed_run :
      (d : ℕ) (ts : List Tick) (l : Loop)
      → m.duration ≡ some d
      → All Polls ts
      → Ends m d ts
      → PrintedOnce d ts l (sample libs serde m ts l)
  unfolding sample turn after_poll finish final
  timed_run d [] l timed polls ends = elim ends [ ]
  timed_run d (t ∷ ts) l timed polls ends =
      let (s, got) = polls.0 l.tables in
      elim (Bool-cases t.requested) [
        | inl asked ↦ last_turn d t ts l s got (inl asked) (rw (got, asked) refl)
        | inr unasked ↦ elim (Bool-cases (leb d (t.tested - m.start))) [
          | inl over ↦
              last_turn d t ts l s got (inr (ground (arith, over)))
                (rw (got, unasked, timed, over) refl)
          | inr early ↦
              let rest : Ends m d ts = ground (arith, ends, unasked, early) in
              rw (go_on d t ts l s got unasked timed early) (
                turn_before d t ts l s _ got (unasked, ground (arith, early))
                  (timed_run d ts (record l { tables = s }) timed polls.1 rest))
        ]
      ]
