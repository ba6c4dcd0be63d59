-- ===== src/Ebpf/Proofs/Emit.antt =====
-- One syscall of the target (peekbeam-ebpf/src/main.rs, `try_emit`), and the log of a run.
use peekbeam.Prelude.{◌≡◌, Bool, true, List, [], ◌∷◌, ◌++◌}
use peekbeam.Data.Int.{ℤ, as_unsigned}
use peekbeam.Data.Exec.{Result, ok, ◌>>=◌}
use peekbeam.Common.{EventKind, enter, exit, SyscallEvent}
use peekbeam.Ebpf.Host.{Host, TracePointContext}
use peekbeam.Ebpf.State.{Maps, matches_target}
use peekbeam.Ebpf.Files.{file_action, handle_file_syscall}
use peekbeam.Ebpf.Syscalls.{emit_syscall, try_emit}
use peekbeam.Ebpf.Programs.{Hook, sys_enter, sys_exit, program, fire}
use peekbeam.Ebpf.Proofs.Room.{Accepts, output_syscall_room}

abbrev pub hook_of : EventKind → Hook
hook_of enter = sys_enter
hook_of exit = sys_exit

module _ (h : Host) where
  -- The event that the programs write for a syscall.
  abbrev pub syscall_event : TracePointContext → EventKind → ℤ → SyscallEvent
  syscall_event ctx kind nr = record {
    pid = ctx.tgid;
    kind = kind;
    pad = 0 ∷ 0 ∷ 0 ∷ [];
    syscall_nr = as_unsigned 64 nr;
    timestamp_ns = ctx.ktime_ns;
  }

  -- If the ring accepts its event, a syscall of the target is counted and its file half is run.
  pub emit_room :
      (ctx : TracePointContext) (kind : EventKind) (nr : ℤ) (s : Maps h)
      → Accepts h.syscall_ring s.events (syscall_event ctx kind nr)
      → matches_target h ctx ctx.tgid s ≡ true
      → ctx.read_i64 8 ≡ ok nr
      → (r : h.syscall_ring.Ring) × (h.syscall_ring.records r
          ≡ h.syscall_ring.records s.events ++ syscall_event ctx kind nr ∷ [])
        × ((fire h (hook_of kind) ctx s).1
            ≡ (file_action h ctx kind ctx.tgid nr (record s { events = r })).1)
  unfolding fire program try_emit emit_syscall handle_file_syscall ◌>>=◌
  emit_room ctx enter nr s room hit e =
      let (r, grown, done) = output_syscall_room h s (syscall_event ctx enter nr) room in
      (r, grown, rw (hit, e, done))
  emit_room ctx exit nr s room hit e =
      let (r, grown, done) = output_syscall_room h s (syscall_event ctx exit nr) room in
      (r, grown, rw (hit, e, done))

  -- What one firing adds to the log of syscalls.
  logged_if : Bool → TracePointContext → EventKind → Result ℤ → List SyscallEvent
  logged_if true ctx kind (ok nr) = syscall_event ctx kind nr ∷ []
  logged_if _ ctx kind _ = []

  unfoldable pub logged : Maps h → Hook → TracePointContext → List SyscallEvent
  unfolding logged_if
  logged s sys_enter ctx = logged_if (matches_target h ctx ctx.tgid s) ctx enter (ctx.read_i64 8)
  logged s sys_exit ctx = logged_if (matches_target h ctx ctx.tgid s) ctx exit (ctx.read_i64 8)
  logged s _ ctx = []

  -- The log of a run: one entry for each enter or exit of a task that passes the filters of `s`.
  unfoldable pub log : Maps h → List (Hook × TracePointContext) → List SyscallEvent
  log s [] = []
  log s ((hook, ctx) ∷ rest) = logged s hook ctx ++ log s rest
