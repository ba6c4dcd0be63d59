-- ===== src/Ebpf/Programs.antt =====
-- peekbeam-ebpf/src/main.rs: the entry points of the six programs, and a run of them over the
-- firings of their tracepoints.
use peekbeam.Prelude.{ℕ, List, [], ◌∷◌}
use peekbeam.Data.Int.{as_unsigned}
use peekbeam.Data.Exec.{Result, ok, err}
use peekbeam.Common.{enter, exit}
use peekbeam.Ebpf.Host.{Host, TracePointContext}
use peekbeam.Ebpf.State.{Maps}
use peekbeam.Ebpf.Syscalls.{try_emit}
use peekbeam.Ebpf.Net.{try_net_state, try_net_retransmit}
use peekbeam.Ebpf.Mem.{try_kmalloc, try_kfree}

-- `match … { Ok(ret) => ret, Err(ret) => ret }`
abbrev pub code : Result ℕ → ℕ
code (ok ret) = ret
code (err ret) = as_unsigned 32 ret

-- Which program a firing starts.
pub data Hook : Type 0 where
  sys_enter sys_exit inet_sock_set_state tcp_retransmit_skb kmalloc kfree : Hook

module _ (h : Host) where
  -- the call that the `match` of an entry point is on
  unfoldable pub program : Hook → TracePointContext → Maps h → Result ℕ × Maps h
  program sys_enter ctx = try_emit h ctx enter
  program sys_exit ctx = try_emit h ctx exit
  program inet_sock_set_state ctx = try_net_state h ctx
  program tcp_retransmit_skb ctx = try_net_retransmit h ctx
  program kmalloc ctx = try_kmalloc h ctx
  program kfree ctx = try_kfree h ctx

  -- an entry point: the code that the kernel sees, and the state after
  unfoldable pub fire : Hook → TracePointContext → Maps h → ℕ × Maps h
  fire hook ctx s = (code (program hook ctx s).0, (program hook ctx s).1)

  -- The kernel fires the programs one after the other.
  unfoldable pub run : List (Hook × TracePointContext) → Maps h → Maps h
  run [] s = s
  run ((hook, ctx) ∷ rest) s = run rest (fire hook ctx s).1
