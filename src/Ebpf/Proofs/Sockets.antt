-- ===== src/Ebpf/Proofs/Sockets.antt =====
-- Which sockets are tracked, and what is reported of them (peekbeam-ebpf/src/main.rs,
-- `try_net_state` and `try_net_retransmit`).
use peekbeam.Prelude.{
  ℕ, ◌≡◌, refl, Bool, not, true, false, List, [], ◌∷◌, ◌++◌, arith, inl, inr, ◌⊎◌, Bool-cases,
  if◌then◌else◌, nat_beq, nat_eq,
}
use mathlib.Core.List.{append-nil}
use peekbeam.Data.Int.{ℤ, as_unsigned}
use peekbeam.Data.Lists.{All, replicate}
use peekbeam.Data.Exec.{Result, ok, err, map_ok, ◌>>=◌}
use peekbeam.Common.{NetEvent, state_change, retransmit}
use peekbeam.Ebpf.Host.{Host, TracePointContext}
use peekbeam.Ebpf.State.{Maps, is_some, matches_target, track_sock, untrack_sock, output_net}
use peekbeam.Ebpf.Net.{
  read_addrs, net_state_body, try_net_state, net_retransmit_body, try_net_retransmit,
}
use peekbeam.Ebpf.Programs.{inet_sock_set_state, tcp_retransmit_skb, program, fire}
use peekbeam.Ebpf.Proofs.Room.{Accepts, Inserts, output_net_room}

-- An address of the record: sixteen bytes at `off6` for `AF_INET6` (10), else four at `off4` and
-- twelve zeros.
abbrev pub addr_at : TracePointContext → ℕ → ℕ → ℕ → Result (List ℕ)
addr_at ctx family off4 off6 =
    if nat_beq family 10
    then ctx.read_bytes 16 off6
    else map_ok (λ a. a ++ replicate 12 0) (ctx.read_bytes 4 off4)

-- The kernel's record of a state change of the socket `sock` can be read.
pub record ReadsState (ctx : TracePointContext) (sock : ℕ) : Type 0 where
  pub newstate : ℤ
  pub sport : ℕ
  pub dport : ℕ
  pub family : ℕ
  pub saddr : List ℕ
  pub daddr : List ℕ
  pub sock_read : ctx.read_u64 8 ≡ ok sock
  pub state_read : ctx.read_i32 20 ≡ ok newstate
  pub sport_read : ctx.read_u16 24 ≡ ok sport
  pub dport_read : ctx.read_u16 26 ≡ ok dport
  pub family_read : ctx.read_u16 28 ≡ ok family
  pub saddr_read : addr_at ctx family 32 40 ≡ ok saddr
  pub daddr_read : addr_at ctx family 36 56 ≡ ok daddr

unfoldable pub state_event : (ctx : TracePointContext) (sock : ℕ) → ReadsState ctx sock → NetEvent
state_event ctx sock r = record {
  kind = state_change;
  family = r.family;
  state = as_unsigned 16 r.newstate;
  sport = r.sport;
  dport = r.dport;
  saddr = r.saddr;
  daddr = r.daddr;
  timestamp_ns = ctx.ktime_ns;
}

module _ (h : Host) where
  read_addrs_ok :
      (ctx : TracePointContext) (family s4 d4 s6 d6 : ℕ) {sa da : List ℕ} (s : Maps h)
      → addr_at ctx family s4 s6 ≡ ok sa
      → addr_at ctx family d4 d6 ≡ ok da
      → read_addrs h ctx family s4 d4 s6 d6 s ≡ (ok (sa, da), s)
  unfolding read_addrs ◌>>=◌
  read_addrs_ok ctx family s4 d4 s6 d6 s p q = ground arith

  module _ (ctx : TracePointContext) (sock : ℕ) (r : ReadsState ctx sock) where
    abbrev closes : Bool
    closes = nat_beq (as_unsigned 16 r.newstate) 7

    -- What is wanted of a state change in `s` that leads to `t`.
    abbrev pub Reported : Maps h → Maps h → Type 0
    Reported s t =
        (h.net_ring.records t.net_events
          ≡ h.net_ring.records s.net_events ++ state_event ctx sock r ∷ [])
        × (is_some (h.u8_map.get t.tracked_socks sock) ≡ not closes)

    body-Reported :
        (s : Maps h)
        → Accepts h.net_ring s.net_events (state_event ctx sock r)
        → is_some (h.u8_map.get s.tracked_socks sock) ≡ true
        → Reported s (net_state_body h ctx sock true s).1
    unfolding net_state_body untrack_sock ◌>>=◌ state_event
    body-Reported s room tracked =
        let (a, grown, done) = output_net_room h s (state_event ctx sock r) room in
        let addrs = read_addrs_ok ctx r.family 32 36 40 56 s r.saddr_read r.daddr_read in
        elim (Bool-cases closes) [
          | inl c ↦ (
            rw (r.state_read, r.sport_read, r.dport_read, r.family_read, addrs, done, c) grown,
            rw (r.state_read, r.sport_read, r.dport_read, r.family_read, addrs, done, c)
                (ground (arith, h.u8_map.get-remove s.tracked_socks sock sock)),
          )
          | inr c ↦ (
            rw (r.state_read, r.sport_read, r.dport_read, r.family_read, addrs, done, c) grown,
            rw (r.state_read, r.sport_read, r.dport_read, r.family_read, addrs, done, c) tracked,
          )
        ]

    track_first :
        (s : Maps h)
        → net_state_body h ctx sock false s ≡ net_state_body h ctx sock true (track_sock h sock s).1
    unfolding net_state_body ◌>>=◌
    track_first s = refl

    tracked_then :
        (s : Maps h)
        → Inserts h.u8_map s.tracked_socks sock 1
        → ((track_sock h sock s).1.net_events ≡ s.net_events)
          × (is_some (h.u8_map.get (track_sock h sock s).1.tracked_socks sock) ≡ true)
    unfolding track_sock
    tracked_then s (m, e) = (
      rw (e, track_sock),
      rw (e, track_sock) (ground (arith, h.u8_map.get-insert s.tracked_socks m sock sock 1 e)),
    )

    in_state :
        (s : Maps h) (b : Bool)
        → is_some (h.u8_map.get s.tracked_socks sock) ≡ b
        → (b ≡ true) ⊎ (matches_target h ctx ctx.tgid s ≡ true)
        → (fire h inet_sock_set_state ctx s).1 ≡ (net_state_body h ctx sock b s).1
    unfolding fire program try_net_state ◌>>=◌
    in_state s true e _ = rw (r.sock_read, e)
    in_state s false e (inl x) = cc
    in_state s false e (inr hit) = rw (r.sock_read, e, hit)

    -- A state change whose record can be read, of a socket that is tracked, or that fires in a task
    -- of the target while the map of sockets takes the socket, and whose event the ring accepts, is
    -- reported by exactly one event with the record's state, ports and addresses; after it the
    -- socket is tracked, unless the new state is `TCP_CLOSE` (7): then it is not.
    pub state_reported :
        (s : Maps h)
        → Accepts h.net_ring s.net_events (state_event ctx sock r)
        → (is_some (h.u8_map.get s.tracked_socks sock) ≡ true)
          ⊎ ((matches_target h ctx ctx.tgid s ≡ true) × Inserts h.u8_map s.tracked_socks sock 1)
        → (h.net_ring.records (fire h inet_sock_set_state ctx s).1.net_events
            ≡ h.net_ring.records s.net_events ++ state_event ctx sock r ∷ [])
          × (is_some (h.u8_map.get (fire h inet_sock_set_state ctx s).1.tracked_socks sock)
              ≡ not (nat_beq (as_unsigned 16 r.newstate) 7))
    state_reported s room (inl old) = rw (in_state s true old (inl refl)) (body-Reported s room old)
    state_reported s room (inr (hit, roomu)) =
        elim (Bool-cases (is_some (h.u8_map.get s.tracked_socks sock))) [
          | inl old ↦ rw (in_state s true old (inl refl)) (body-Reported s room old)
          | inr new ↦
              let (kept, tracked) = tracked_then s roomu in
              let (a, b) = body-Reported (track_sock h sock s).1 (rw kept room) tracked in
              rw (in_state s false new (inr hit), track_first s) (rw kept at a, b)
        ]

    -- A state change, to `TCP_CLOSE` too, of a tracked socket whose event the ring refuses returns 1
    -- and changes nothing: the error returns before the entry is removed, so a socket that has
    -- closed stays tracked.
    pub lost_close :
        (s : Maps h) (x : ℤ)
        → is_some (h.u8_map.get s.tracked_socks sock) ≡ true
        → h.net_ring.output s.net_events (state_event ctx sock r) ≡ err x
        → fire h inet_sock_set_state ctx s ≡ (1, s)
    unfolding fire program try_net_state net_state_body output_net state_event as_unsigned ◌>>=◌
    lost_close s x old full =
        let addrs = read_addrs_ok ctx r.family 32 36 40 56 s r.saddr_read r.daddr_read in
        rw (
          r.sock_read, old, r.state_read, r.sport_read, r.dport_read, r.family_read, addrs, full,
          output_net,
        )

-- The kernel's record of a retransmit on the socket `sock` can be read.
pub record ReadsRetransmit (ctx : TracePointContext) (sock : ℕ) : Type 0 where
  pub state : ℤ
  pub sport : ℕ
  pub dport : ℕ
  pub family : ℕ
  pub saddr : List ℕ
  pub daddr : List ℕ
  pub sock_read : ctx.read_u64 16 ≡ ok sock
  pub state_read : ctx.read_i32 24 ≡ ok state
  pub sport_read : ctx.read_u16 28 ≡ ok sport
  pub dport_read : ctx.read_u16 30 ≡ ok dport
  pub family_read : ctx.read_u16 32 ≡ ok family
  pub saddr_read : addr_at ctx family 34 42 ≡ ok saddr
  pub daddr_read : addr_at ctx family 38 58 ≡ ok daddr

unfoldable pub retransmit_event :
    (ctx : TracePointContext) (sock : ℕ) → ReadsRetransmit ctx sock → NetEvent
retransmit_event ctx sock r = record {
  kind = retransmit;
  family = r.family;
  state = as_unsigned 16 r.state;
  sport = r.sport;
  dport = r.dport;
  saddr = r.saddr;
  daddr = r.daddr;
  timestamp_ns = ctx.ktime_ns;
}

module _ (h : Host) (ctx : TracePointContext) (sock : ℕ) (r : ReadsRetransmit ctx sock) where
  -- A retransmit whose record can be read is reported exactly if its socket is tracked, whatever task
  -- it fires in, by one event with the record's fields, if the ring as it stands accepts that
  -- event where there is one to write; the sockets that are tracked stay the same.
  pub retransmit_reported :
      (s : Maps h)
      → All (Accepts h.net_ring s.net_events) (
          if is_some (h.u8_map.get s.tracked_socks sock)
          then retransmit_event ctx sock r ∷ []
          else [])
      → (h.net_ring.records (fire h tcp_retransmit_skb ctx s).1.net_events
          ≡ h.net_ring.records s.net_events
            ++ (if is_some (h.u8_map.get s.tracked_socks sock)
                then retransmit_event ctx sock r ∷ []
                else []))
        × ((fire h tcp_retransmit_skb ctx s).1.tracked_socks ≡ s.tracked_socks)
  unfolding fire program try_net_retransmit net_retransmit_body retransmit_event ◌>>=◌
  retransmit_reported s room =
      let addrs = read_addrs_ok h ctx r.family 34 38 42 58 s r.saddr_read r.daddr_read in
      elim (Bool-cases (is_some (h.u8_map.get s.tracked_socks sock))) [
        | inl old ↦
            let (a, grown, done) =
              output_net_room h s (retransmit_event ctx sock r) (rw old at room).0 in
            (
              rw
                  (
                    r.sock_read, old, r.state_read, r.sport_read, r.dport_read, r.family_read,
                    addrs, done,
                  )
                  grown,
              rw (
                r.sock_read, old, r.state_read, r.sport_read, r.dport_read, r.family_read, addrs,
                done,
              ),
            )
        | inr new ↦ (rw (r.sock_read, new, append-nil), rw (r.sock_read, new))
      ]
