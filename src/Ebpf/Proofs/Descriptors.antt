-- ===== src/Ebpf/Proofs/Descriptors.antt =====
-- The two halves of `read`, `write`, `pread64`, `pwrite64` and `close` (peekbeam-ebpf/src/main.rs,
-- `stash_fd`, `emit_read_write` and `emit_close`).
use peekbeam.Prelude.{
  ◌≡◌, refl, ◌∙◌, true, none, some, List, [], ◌∷◌, ◌++◌, arith, inl, inr, Bool-cases, if◌then◌else◌,
  nat_eq,
}
use mathlib.Core.List.{append-nil}
use peekbeam.Data.Int.{ℤ, pos, is_neg, as_i32, int_beq}
use peekbeam.Data.Lists.{All}
use peekbeam.Data.Exec.{ok, ◌>>=◌}
use peekbeam.Common.{enter, exit, FileEvent, FileEventKind, close, read, write}
use peekbeam.Ebpf.Host.{Host, TracePointContext}
use peekbeam.Ebpf.State.{Maps, matches_target, remove_fd}
use peekbeam.Ebpf.Files.{
  is_read, is_write, stash_fd, take_read_write, emit_read_write, take_close, emit_close,
  file_action,
}
use peekbeam.Ebpf.Programs.{Hook, sys_enter, sys_exit, fire}
use peekbeam.Ebpf.Proofs.Room.{Accepts, Inserts, output_file_room, insert_fd_room}
use peekbeam.Ebpf.Proofs.Emit.{syscall_event, emit_room}
use peekbeam.Ebpf.Proofs.Frames.{
  IsOther, SameFilters-trans, run-SameFilters, fire-SameFilters, matches-SameFilters, run-PendingIs,
}
use peekbeam.Ebpf.Proofs.Pairing.{between}
use peekbeam.Ebpf.Proofs.FdCalls.{
  FdCall, reads, preads, writes, pwrites, closes, EntersFd, ExitsFd, fd_event, reported,
  read_numbers, write_numbers, close_number, read_tests, write_tests, close_tests, enter_tests,
}

module _ (h : Host) where
  -- After the enter the descriptor is pending, and no file event is written.
  enter_fd :
      (ctx : TracePointContext) (nr fd : ℤ) (s : Maps h)
      → FdCall nr
      → Inserts h.fd_map s.pending_fd ctx.tgid (as_i32 fd)
      → ctx.read_i64 16 ≡ ok fd
      → (h.fd_map.get (file_action h ctx enter ctx.tgid nr s).1.pending_fd ctx.tgid
          ≡ some (as_i32 fd))
        × ((file_action h ctx enter ctx.tgid nr s).1.file_events ≡ s.file_events)
  unfolding file_action stash_fd ◌>>=◌
  enter_fd ctx nr fd s call room e =
      let (m, i, done) = insert_fd_room h s ctx.tgid (as_i32 fd) room in
      let kept : h.fd_map.get m ctx.tgid ≡ some (as_i32 fd) =
        ground (arith, h.fd_map.get-insert s.pending_fd m ctx.tgid ctx.tgid (as_i32 fd) i) in
      elim (enter_tests nr call) [
        | inl (a, r) ↦ (rw (a, r, e, done) kept, rw (a, r, e, done))
        | inr (inl (a, b, w)) ↦ (rw (a, b, w, e, done) kept, rw (a, b, w, e, done))
        | inr (inr (a, b, d, c)) ↦ (rw (a, b, d, c, e, done) kept, rw (a, b, d, c, e, done))
      ]

  module _ (ctx : TracePointContext) (fd ret : ℤ) (s : Maps h) (e : ctx.read_i64 16 ≡ ok ret) where
    -- The ring grew by `events`, and nothing is pending for the process.
    abbrev Took : Maps h → List FileEvent → Type 0
    Took t events =
        (h.file_ring.records t.file_events ≡ h.file_ring.records s.file_events ++ events)
        × (h.fd_map.get t.pending_fd ctx.tgid ≡ none)

    gone : h.fd_map.get (h.fd_map.remove s.pending_fd ctx.tgid) ctx.tgid ≡ none
    gone = ground (arith, h.fd_map.get-remove s.pending_fd ctx.tgid ctx.tgid)

    -- The ring accepts these records, if there are any.
    abbrev Takes : List FileEvent → Type 0
    Takes events = All (Accepts h.file_ring s.file_events) events

    abbrev cleared : Maps h
    cleared = record s { pending_fd = h.fd_map.remove s.pending_fd ctx.tgid }

    exit_read_write :
        (kind : FileEventKind)
        → Takes (if is_neg ret then [] else fd_event ctx kind fd ret ∷ [])
        → Took
            (take_read_write h ctx ctx.tgid kind (some fd) s).1
            (if is_neg ret then [] else fd_event ctx kind fd ret ∷ [])
    unfolding take_read_write remove_fd ◌>>=◌
    exit_read_write kind room = elim (Bool-cases (is_neg ret)) [
      | inl failed ↦ (rw (e, failed, append-nil), rw (e, failed) gone)
      | inr fine ↦
          let (r, grown, done) =
            output_file_room h cleared (fd_event ctx kind fd ret) (rw fine at room).0 in
          (rw (e, fine, done) grown, rw (e, fine, done) gone)
    ]

    exit_close :
        Takes (if int_beq ret (pos 0) then fd_event ctx close fd (pos 0) ∷ [] else [])
        → Took
            (take_close h ctx ctx.tgid (some fd) s).1
            (if int_beq ret (pos 0) then fd_event ctx close fd (pos 0) ∷ [] else [])
    unfolding take_close remove_fd ◌>>=◌
    exit_close room = elim (Bool-cases (int_beq ret (pos 0))) [
      | inl fine ↦
          let (r, grown, done) =
            output_file_room h cleared (fd_event ctx close fd (pos 0)) (rw fine at room).0 in
          (rw (e, fine, done) grown, rw (e, fine, done) gone)
      | inr failed ↦ (rw (e, failed, append-nil), rw (e, failed) gone)
    ]

    exit_read :
        (nr : ℤ)
        → is_read nr ≡ true
        → h.fd_map.get s.pending_fd ctx.tgid ≡ some fd
        → Takes (if is_neg ret then [] else fd_event ctx read fd ret ∷ [])
        → Took
            (file_action h ctx exit ctx.tgid nr s).1
            (if is_neg ret then [] else fd_event ctx read fd ret ∷ [])
    unfolding file_action emit_read_write ◌>>=◌
    exit_read nr r p room = rw (read_tests nr r, r, p) (exit_read_write read room)

    exit_write :
        (nr : ℤ)
        → is_write nr ≡ true
        → h.fd_map.get s.pending_fd ctx.tgid ≡ some fd
        → Takes (if is_neg ret then [] else fd_event ctx write fd ret ∷ [])
        → Took
            (file_action h ctx exit ctx.tgid nr s).1
            (if is_neg ret then [] else fd_event ctx write fd ret ∷ [])
    unfolding file_action emit_read_write ◌>>=◌
    exit_write nr w p room =
        let (a, b) = write_tests nr w in rw (a, b, w, p) (exit_read_write write room)

    exit_fd :
        {nr : ℤ} (call : FdCall nr)
        → h.fd_map.get s.pending_fd ctx.tgid ≡ some fd
        → Takes (reported ctx call fd ret)
        → Took (file_action h ctx exit ctx.tgid nr s).1 (reported ctx call fd ret)
    unfolding file_action emit_close reported ◌>>=◌
    exit_fd {nr} (reads x) p room = exit_read nr (read_numbers nr (inl x)) p room
    exit_fd {nr} (preads x) p room = exit_read nr (read_numbers nr (inr x)) p room
    exit_fd {nr} (writes x) p room = exit_write nr (write_numbers nr (inl x)) p room
    exit_fd {nr} (pwrites x) p room = exit_write nr (write_numbers nr (inr x)) p room
    exit_fd {nr} (closes x) p room =
        let c = close_number nr x in
        let (a, b, d) = close_tests nr c in rw (a, b, d, c, p) (exit_close room)

  -- Nothing is full where the programs write: the ring of syscall events at the enter and at the exit,
  -- the map of pending descriptors at the enter, and the ring of file events at the exit, if there
  -- is an event to write.
  pub record RoomForFd (c₁ c₂ : TracePointContext) (mid : List (Hook × TracePointContext))
      (s : Maps h) {fd nr ret : ℤ} (en : EntersFd c₁ fd) (ex : ExitsFd c₂ nr ret) : Type 0 where
    pub entered : Accepts h.syscall_ring s.events (syscall_event h c₁ enter en.nr)
    pub stashed : Inserts h.fd_map s.pending_fd c₁.tgid (as_i32 fd)
    pub left : Accepts h.syscall_ring (between h c₁ mid s).events (syscall_event h c₂ exit nr)
    pub written :
        All
          (Accepts h.file_ring (between h c₁ mid s).file_events)
          (reported c₂ ex.call (as_i32 fd) ret)

  module _ (c₁ c₂ : TracePointContext) (mid : List (Hook × TracePointContext)) (s : Maps h)
      (same : c₂.tgid ≡ c₁.tgid) (hit₁ : matches_target h c₁ c₁.tgid s ≡ true)
      (hit₂ : matches_target h c₂ c₂.tgid s ≡ true) (others : All (IsOther c₁.tgid) mid) where
    -- The enter: no file event, and the descriptor is pending up to the exit.
    entered_fd :
        {fd : ℤ} (en : EntersFd c₁ fd)
        → Accepts h.syscall_ring s.events (syscall_event h c₁ enter en.nr)
        → Inserts h.fd_map s.pending_fd c₁.tgid (as_i32 fd)
        → (h.fd_map.get (between h c₁ mid s).pending_fd c₂.tgid ≡ some (as_i32 fd))
          × ((fire h sys_enter c₁ s).1.file_events ≡ s.file_events)
    entered_fd {fd} en rooms roomd =
        let (r, _, stepped) = emit_room h c₁ enter en.nr s rooms hit₁ en.nr_read in
        let (stashed, quiet) =
          enter_fd c₁ en.nr fd (record s { events = r }) en.call roomd en.fd_read in
        let after =
          run-PendingIs h c₁.tgid _ (some (as_i32 fd)) mid (fire h sys_enter c₁ s).1 others
            (record { path = refl; fd = rw stepped stashed }) in
        (rw same after.fd, rw stepped quiet)

    -- When a task of the target enters `read` (63), `pread64` (67), `write` (64), `pwrite64` (68) or
    -- `close` (57) and a task of the same process leaves such a call, only other processes fire in
    -- between, and the rings and the map of pending descriptors have room where these two firings
    -- write: the enter writes no file event, the exit writes exactly the event that its call and
    -- its result ask for, with the descriptor of the enter (a read or a write that did not fail
    -- with its byte count, a close that returned 0), and no descriptor is pending for the process.
    pub fd_recorded :
        {fd nr ret : ℤ} (en : EntersFd c₁ fd) (ex : ExitsFd c₂ nr ret)
        → RoomForFd c₁ c₂ mid s en ex
        → ((fire h sys_enter c₁ s).1.file_events ≡ s.file_events)
          × (h.file_ring.records (fire h sys_exit c₂ (between h c₁ mid s)).1.file_events
              ≡ h.file_ring.records (between h c₁ mid s).file_events
                ++ reported c₂ ex.call (as_i32 fd) ret)
          × (h.fd_map.get (fire h sys_exit c₂ (between h c₁ mid s)).1.pending_fd c₂.tgid ≡ none)
    fd_recorded {fd} {nr} {ret} en ex room =
        let u = between h c₁ mid s in
        let (pending, quiet) = entered_fd en room.entered room.stashed in
        let filters =
          SameFilters-trans h (fire-SameFilters h sys_enter c₁ s)
            (run-SameFilters h mid (fire h sys_enter c₁ s).1) in
        let (r, _, stepped) =
          emit_room h c₂ exit nr u room.left (matches-SameFilters h s u c₂ c₂.tgid filters ∙ hit₂)
            ex.nr_read in
        let (written, none_left) =
          exit_fd c₂ (as_i32 fd) ret (record u { events = r }) ex.ret_read ex.call pending
            room.written in
        (quiet, rw stepped written, rw stepped none_left)
