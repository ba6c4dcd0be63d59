-- ===== src/Ebpf/Mem.antt =====
-- peekbeam-ebpf/src/main.rs, `kmalloc` and `kfree`.
use peekbeam.Prelude.{ℕ, if◌then◌else◌}
use peekbeam.Data.Int.{pos}
use peekbeam.Data.Exec.{map_err, ◌>>=◌, ◌>>◌, pure, lift, gets, caught}
use peekbeam.Common.{alloc, free}
use peekbeam.Ebpf.Host.{Host, TracePointContext}
use peekbeam.Ebpf.State.{Prog, matches_target, output_mem}

module _ (h : Host) where
  unfoldable pub try_kmalloc : TracePointContext → Prog h ℕ
  try_kmalloc ctx = do
    let pid = ctx.tgid
    matches ← gets (matches_target h ctx pid)
    if matches
        then (do
          bytes ← lift (map_err (pos 1) (ctx.read_u64 32))
          λ s. caught (
              output_mem h
                (record { pid = pid; kind = alloc; bytes = bytes; timestamp_ns = ctx.ktime_ns }) s)
          pure 0)
        else pure 0

  unfoldable pub try_kfree : TracePointContext → Prog h ℕ
  try_kfree ctx = do
    let pid = ctx.tgid
    matches ← gets (matches_target h ctx pid)
    if matches
        then (do
          λ s. caught (
              output_mem h
                (record { pid = pid; kind = free; bytes = 0; timestamp_ns = ctx.ktime_ns }) s)
          pure 0)
        else pure 0
