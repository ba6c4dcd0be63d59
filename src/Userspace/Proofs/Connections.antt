-- ===== src/Userspace/Proofs/Connections.antt =====
-- The connections that peekbeam/src/main.rs shows (`drain_net_events`), by the events of each.
use peekbeam.Prelude.{
  ℕ, ◌+◌, ◌%◌, ◌^◌, ◌<◌, ◌≡◌, refl, ◌∙◌, Bool, true, false, Option, none, some, List, [], ◌∷◌, ◌++◌,
  foldl, arith, ◌==◌, nat_beq, if◌then◌else◌, Bool-cases, inl, inr,
}
use peekbeam.Data.HashMap
use peekbeam.Data.HashMap.{HashMap, or_default, get-remove, get-entry, get-new}
use peekbeam.Data.Lists.{All, foldl-append}
use peekbeam.Common.{NetEventKind, state_change, retransmit, NetEvent, tcp_close}
use peekbeam.Userspace.Stats.{
  add64, ConnectionKey, ConnectionStats, no_connection, key_eq, ConnMap, key_beq_iff,
}
use peekbeam.Userspace.Apply.{apply_net, net_by, key_of}

-- The event says that its connection is closed.
abbrev pub is_closing : NetEvent → Bool
is_closing e = elim e.kind [ state_change ↦ nat_beq e.state tcp_close | retransmit ↦ false ]

abbrev pub retransmit_count : NetEvent → ℕ
retransmit_count e = elim e.kind [ state_change ↦ 0 | retransmit ↦ 1 ]

-- The events of the connection `k`.
abbrev pub of_connection : ConnectionKey → List NetEvent → List NetEvent
of_connection k [] = []
of_connection k (e ∷ es) = if key_of e == k then e ∷ of_connection k es else of_connection k es

abbrev pub last_state : ℕ → List NetEvent → ℕ
last_state d [] = d
last_state d (e ∷ es) = last_state e.state es

abbrev pub retransmits_of : List NetEvent → ℕ
retransmits_of [] = 0
retransmits_of (e ∷ es) = retransmit_count e + retransmits_of es

-- What is known of a connection by its events since it was last closed.
abbrev pub shown : List NetEvent → Option ConnectionStats
shown [] = none
shown (e ∷ es) =
    some (record { state = last_state e.state es; retransmits = retransmits_of (e ∷ es) % 2 ^ 64 })

-- The connection `k` is not closed by the events.
abbrev pub StaysOpen : ConnectionKey → List NetEvent → Type 0
StaysOpen k = All (λ e. key_of e ≡ k → is_closing e ≡ false)

-- One event, for each connection.
abbrev next : NetEvent → Option ConnectionStats → Option ConnectionStats
next e o =
    if is_closing e
    then none
    else some (record {
      state = e.state;
      retransmits = ((or_default no_connection o).retransmits + retransmit_count e) % 2 ^ 64;
    })

abbrev InRange : Option ConnectionStats → Type 0
InRange o = (or_default no_connection o).retransmits < 2 ^ 64

net_by-get :
    (kind : NetEventKind) (e : NetEvent) (m : ConnMap) (k : ConnectionKey)
    → e.kind ≡ kind
    → InRange (HashMap.get m (key_of e))
    → HashMap.get (net_by kind e m) k
      ≡ (if key_of e == k then next e (HashMap.get m (key_of e)) else HashMap.get m k)
unfolding net_by add64
net_by-get state_change e m k same small = rw same (
    ground (
      arith,
      small,
      get-remove m (key_of e) k,
      get-entry m (key_of e) k no_connection (λ s. record s { state = e.state }),
    ))
net_by-get retransmit e m k same small = rw same (
    ground (
      arith,
      small,
      get-entry m (key_of e) k no_connection
          (λ s. record { state = e.state; retransmits = add64 s.retransmits 1 }),
    ))

-- Every counter fits 64 bits.
abbrev pub AllInRange : ConnMap → Type 0
AllInRange m = (k : ConnectionKey) → InRange (HashMap.get m k)

apply_net-get :
    (e : NetEvent) (m : ConnMap) (k : ConnectionKey)
    → AllInRange m
    → HashMap.get (apply_net m e) k
      ≡ (if key_of e == k then next e (HashMap.get m k) else HashMap.get m k)
unfolding apply_net
apply_net-get e m k small =
    let step = net_by-get e.kind e m k refl (small (key_of e)) in
    elim (Bool-cases (key_of e == k)) [
      | inl here ↦
          let same : key_of e ≡ k = (key_beq_iff (key_of e) k).0 here in rw (step, here, same) refl
      | inr other ↦ rw (step, other) refl
    ]

apply_net-AllInRange : (e : NetEvent) (m : ConnMap) → AllInRange m → AllInRange (apply_net m e)
apply_net-AllInRange e m small k = rw (apply_net-get e m k small) (ground (arith, small k))

-- The events of an open connection.
open_connection :
    (k : ConnectionKey) (es : List NetEvent) (m : ConnMap) (st n : ℕ)
    → AllInRange m
    → StaysOpen k es
    → HashMap.get m k ≡ some (record { state = st; retransmits = n % 2 ^ 64 })
    → HashMap.get (foldl apply_net m es) k
      ≡ some (record {
        state = last_state st (of_connection k es);
        retransmits = (n + retransmits_of (of_connection k es)) % 2 ^ 64;
      })
open_connection k [] m st n small stays now = ground (arith, now)
open_connection k (e ∷ es) m st n small stays now = elim (Bool-cases (key_of e == k)) [
  | inl here ↦
      let same : key_of e ≡ k = (key_beq_iff (key_of e) k).0 here in
      let step = apply_net-get e m k small in
      rw here (
        open_connection k es (apply_net m e) e.state (n + retransmit_count e)
          (apply_net-AllInRange e m small) stays.1
          (rw (step, here, now, stays.0 same) (ground arith))
        ∙ ground arith)
  | inr other ↦
      let step = apply_net-get e m k small in
      rw other (
        open_connection k es (apply_net m e) st n (apply_net-AllInRange e m small) stays.1
          (rw (step, other) now))
]

-- From a table that does not show the connection `k`, events that do not close it leave what they
-- say of it: nothing if none is about it, else the state of the last one and the number of its
-- retransmissions modulo 2^64; events of other connections make no difference. (The counters of
-- the table before fit 64 bits.)
pub connection_shown :
    (k : ConnectionKey) (es : List NetEvent) (m : ConnMap)
    → AllInRange m
    → HashMap.get m k ≡ none
    → StaysOpen k es
    → HashMap.get (foldl apply_net m es) k ≡ shown (of_connection k es)
connection_shown k [] m small unknown stays = unknown
connection_shown k (e ∷ es) m small unknown stays =
    let step = apply_net-get e m k small in
    elim (Bool-cases (key_of e == k)) [
      | inl here ↦
          let same : key_of e ≡ k = (key_beq_iff (key_of e) k).0 here in
          rw here (
            open_connection k es (apply_net m e) e.state (retransmit_count e)
              (apply_net-AllInRange e m small) stays.1
              (rw (step, here, unknown, stays.0 same) (ground arith)))
      | inr other ↦ rw other (
          connection_shown k es (apply_net m e) (apply_net-AllInRange e m small)
            (rw (step, other) unknown) stays.1)
    ]

foldl-AllInRange :
    (es : List NetEvent) (m : ConnMap) → AllInRange m → AllInRange (foldl apply_net m es)
foldl-AllInRange [] m small = small
foldl-AllInRange (e ∷ es) m small =
    foldl-AllInRange es (apply_net m e) (apply_net-AllInRange e m small)

-- An event that closes a connection, after any events, makes the view forget it: later events that
-- do not close it again show what they alone say of it.
pub reopened :
    (before : List NetEvent) (e : NetEvent) (later : List NetEvent) (m : ConnMap)
    → AllInRange m
    → is_closing e ≡ true
    → StaysOpen (key_of e) later
    → HashMap.get (foldl apply_net m (before ++ e ∷ later)) (key_of e)
      ≡ shown (of_connection (key_of e) later)
reopened before e later m small closing stays =
    let u = foldl apply_net m before in
    let fits = foldl-AllInRange before m small in
    let gone = apply_net-get e u (key_of e) fits in
    let here : (key_of e == key_of e) ≡ true = (key_beq_iff (key_of e) (key_of e)).1 refl in
    rw (foldl-append apply_net m before (e ∷ later)) (
      connection_shown (key_of e) later (apply_net u e) (apply_net-AllInRange e u fits)
        (rw (gone, here, closing) refl) stays)
