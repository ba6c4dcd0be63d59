-- ===== src/Ebpf/Net.antt =====
-- peekbeam-ebpf/src/main.rs, `inet_sock_set_state` and `tcp_retransmit_skb`.
use peekbeam.Prelude.{ℕ, Bool, not, ◌&&◌, List, ◌++◌, nat_beq, if◌then◌else◌}
use peekbeam.Data.Int.{pos, as_unsigned}
use peekbeam.Data.Lists.{replicate}
use peekbeam.Data.Exec.{map_err, ◌>>=◌, ◌>>◌, pure, lift, gets, ignore, caught}
use peekbeam.Common.{NetEvent, state_change, retransmit, af_inet6, tcp_close}
use peekbeam.Ebpf.Host.{Host, TracePointContext}
use peekbeam.Ebpf.State.{Prog, is_some, matches_target, track_sock, untrack_sock, output_net}

-- An IPv4 address stands in the first four of sixteen bytes.
abbrev pub widen : List ℕ → List ℕ
widen a = a ++ replicate 12 0

module _ (h : Host) where
  -- The two addresses, from the offsets of the IPv6 or the IPv4 pair by the family.
  unfoldable pub read_addrs : TracePointContext → ℕ → ℕ → ℕ → ℕ → ℕ → Prog h (List ℕ × List ℕ)
  read_addrs ctx family s4 d4 s6 d6 =
      if nat_beq family af_inet6
      then (do
        saddr ← lift (map_err (pos 1) (ctx.read_bytes 16 s6))
        daddr ← lift (map_err (pos 1) (ctx.read_bytes 16 d6))
        pure (saddr, daddr))
      else (do
        saddr ← lift (map_err (pos 1) (ctx.read_bytes 4 s4))
        daddr ← lift (map_err (pos 1) (ctx.read_bytes 4 d4))
        pure (widen saddr, widen daddr))

  -- `NET_EVENTS.output(..).map_err(|_| 1u32)?`
  abbrev pub emit_net : NetEvent → Prog h (Unit {0})
  emit_net e s = caught (output_net h e s)

  -- what `try_net_state` does for a socket of the target
  unfoldable pub net_state_body : TracePointContext → ℕ → Bool → Prog h ℕ
  net_state_body ctx skaddr already_tracked = do
    if already_tracked then pure tt else ignore (track_sock h skaddr)
    newstate ← lift (map_err (pos 1) (ctx.read_i32 20))
    sport ← lift (map_err (pos 1) (ctx.read_u16 24))
    dport ← lift (map_err (pos 1) (ctx.read_u16 26))
    family ← lift (map_err (pos 1) (ctx.read_u16 28))
    let state = as_unsigned 16 newstate
    addrs ← read_addrs ctx family 32 36 40 56
    emit_net (record {
      kind = state_change;
      family = family;
      state = state;
      sport = sport;
      dport = dport;
      saddr = addrs.0;
      daddr = addrs.1;
      timestamp_ns = ctx.ktime_ns;
    })
    if nat_beq state tcp_close then ignore (untrack_sock h skaddr) else pure tt
    pure 0

  unfoldable pub try_net_state : TracePointContext → Prog h ℕ
  try_net_state ctx = do
    skaddr ← lift (map_err (pos 1) (ctx.read_u64 8))
    already_tracked ← gets (λ s. is_some (h.u8_map.get s.tracked_socks skaddr))
    matches ← gets (matches_target h ctx ctx.tgid)
    if not already_tracked && not matches then pure 0 else net_state_body ctx skaddr already_tracked

  unfoldable pub net_retransmit_body : TracePointContext → Prog h ℕ
  net_retransmit_body ctx = do
    state ← lift (map_err (pos 1) (ctx.read_i32 24))
    sport ← lift (map_err (pos 1) (ctx.read_u16 28))
    dport ← lift (map_err (pos 1) (ctx.read_u16 30))
    family ← lift (map_err (pos 1) (ctx.read_u16 32))
    addrs ← read_addrs ctx family 34 38 42 58
    emit_net (record {
      kind = retransmit;
      family = family;
      state = as_unsigned 16 state;
      sport = sport;
      dport = dport;
      saddr = addrs.0;
      daddr = addrs.1;
      timestamp_ns = ctx.ktime_ns;
    })
    pure 0

  unfoldable pub try_net_retransmit : TracePointContext → Prog h ℕ
  try_net_retransmit ctx = do
    skaddr ← lift (map_err (pos 1) (ctx.read_u64 16))
    tracked ← gets (λ s. is_some (h.u8_map.get s.tracked_socks skaddr))
    if tracked then net_retransmit_body ctx else pure 0
