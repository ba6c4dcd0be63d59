-- ===== src/Ebpf/Proofs/Untargeted.antt =====
-- Firings that are not the target's (peekbeam-ebpf/src/main.rs, the early returns).
use peekbeam.Prelude.{ℕ, ◌≡◌, refl, false, none}
use peekbeam.Data.Exec.{Result, ok, err, ◌>>=◌}
use peekbeam.Ebpf.Host.{Host, TracePointContext}
use peekbeam.Ebpf.State.{Maps, matches_target}
use peekbeam.Ebpf.Net.{try_net_state, try_net_retransmit}
use peekbeam.Ebpf.Mem.{try_kmalloc, try_kfree}
use peekbeam.Ebpf.Syscalls.{try_emit}
use peekbeam.Ebpf.Programs.{
  Hook, sys_enter, sys_exit, inet_sock_set_state, tcp_retransmit_skb, kmalloc, kfree, program, fire,
}

module _ (h : Host) where
  -- No socket that a read of the record at `off` may yield is tracked.
  abbrev pub SocketUntracked : ℕ → TracePointContext → Maps h → Type 0
  SocketUntracked off ctx s =
      (k : ℕ) → ctx.read_u64 off ≡ ok k → h.u8_map.get s.tracked_socks k ≡ none

  -- Nothing of this firing belongs to the target: for a retransmit, which runs in no task's
  -- context, only the socket tells.
  abbrev pub IsUntargeted : Hook → TracePointContext → Maps h → Type 0
  IsUntargeted inet_sock_set_state ctx s =
      (matches_target h ctx ctx.tgid s ≡ false) × SocketUntracked 8 ctx s
  IsUntargeted tcp_retransmit_skb ctx s = SocketUntracked 16 ctx s
  IsUntargeted _ ctx s = matches_target h ctx ctx.tgid s ≡ false

  module _ (ctx : TracePointContext) (s : Maps h) where
    state_by_read :
        (r : Result ℕ)
        → ctx.read_u64 8 ≡ r
        → IsUntargeted inet_sock_set_state ctx s
        → (try_net_state h ctx s).1 ≡ s
    unfolding try_net_state ◌>>=◌
    state_by_read (ok k) e u = rw (e, u.1 k e, u.0)
    state_by_read (err x) e u = rw e

    retransmit_by_read :
        (r : Result ℕ)
        → ctx.read_u64 16 ≡ r
        → SocketUntracked 16 ctx s
        → (try_net_retransmit h ctx s).1 ≡ s
    unfolding try_net_retransmit ◌>>=◌
    retransmit_by_read (ok k) e u = rw (e, u k e)
    retransmit_by_read (err x) e u = rw e

    -- A program that fires for what is not the target's leaves every map and every ring as it was.
    pub fire_untargeted : (hook : Hook) → IsUntargeted hook ctx s → (fire h hook ctx s).1 ≡ s
    unfolding fire program try_emit try_kmalloc try_kfree ◌>>=◌
    fire_untargeted sys_enter u = rw u
    fire_untargeted sys_exit u = rw u
    fire_untargeted inet_sock_set_state u = state_by_read _ refl u
    fire_untargeted tcp_retransmit_skb u = retransmit_by_read _ refl u
    fire_untargeted kmalloc u = rw u
    fire_untargeted kfree u = rw u
