-- ===== src/Ebpf/Syscalls.antt =====
-- peekbeam-ebpf/src/main.rs, `sys_enter` and `sys_exit`.
use peekbeam.Prelude.{ℕ, [], ◌∷◌, if◌then◌else◌}
use peekbeam.Data.Int.{pos, as_unsigned}
use peekbeam.Data.Exec.{map_err, ◌>>=◌, ◌>>◌, pure, lift, gets, caught}
use peekbeam.Common.{EventKind}
use peekbeam.Ebpf.Host.{Host, TracePointContext}
use peekbeam.Ebpf.State.{Prog, matches_target, output_syscall}
use peekbeam.Ebpf.Files.{handle_file_syscall}

abbrev pub syscall_nr_offset : ℕ
syscall_nr_offset = 8

module _ (h : Host) where
  -- `try_emit` once the task is known to match
  unfoldable pub emit_syscall : TracePointContext → EventKind → Prog h ℕ
  emit_syscall ctx kind = do
    let pid = ctx.tgid
    syscall_nr ← lift (map_err (pos 1) (ctx.read_i64 syscall_nr_offset))
    λ s. caught (
        output_syscall h
          (record {
            pid = pid;
            kind = kind;
            pad = 0 ∷ 0 ∷ 0 ∷ [];
            syscall_nr = as_unsigned 64 syscall_nr;
            timestamp_ns = ctx.ktime_ns;
          })
          s)
    handle_file_syscall h ctx kind pid syscall_nr
    pure 0

  unfoldable pub try_emit : TracePointContext → EventKind → Prog h ℕ
  try_emit ctx kind = do
    matches ← gets (matches_target h ctx ctx.tgid)
    if matches then emit_syscall ctx kind else pure 0
