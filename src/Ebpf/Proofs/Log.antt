-- ===== src/Ebpf/Proofs/Log.antt =====
-- The log of the syscalls of the target (peekbeam-ebpf/src/main.rs, `try_emit`).
use peekbeam.Prelude.{
  ℕ, ◌≡◌, refl, ◌∙◌, true, false, List, [], ◌∷◌, ◌++◌, arith, Bool-cases, inl, inr,
}
use mathlib.Core.List.{append_assoc, append-nil}
use peekbeam.Data.Int.{ℤ}
use peekbeam.Data.Lists.{All}
use peekbeam.Data.Exec.{ok, err, ◌>>=◌}
use peekbeam.Common.{EventKind, enter, exit}
use peekbeam.Ebpf.Host.{Host, TracePointContext}
use peekbeam.Ebpf.State.{
  Maps, matches_target, track_sock, untrack_sock, insert_open, remove_open, insert_fd, remove_fd,
  output_net, output_file, output_mem,
}
use peekbeam.Ebpf.Syscalls.{emit_syscall, try_emit}
use peekbeam.Ebpf.Programs.{
  Hook, sys_enter, sys_exit, inet_sock_set_state, tcp_retransmit_skb, kmalloc, kfree, program, fire,
  run,
}
use peekbeam.Ebpf.Proofs.Writes.{Result-cases}
use peekbeam.Ebpf.Proofs.Room.{Accepts}
use peekbeam.Ebpf.Proofs.Emit.{hook_of, syscall_event, emit_room, logged, log}
use peekbeam.Ebpf.Proofs.Frames.{SameFilters, fire-SameFilters, matches-SameFilters}
use peekbeam.Ebpf.Proofs.Steps.{
  FileWritesKeep, NetWritesKeep, MemWritesKeep, file_action-Keeps, try_net_state-Keeps,
  try_net_retransmit-Keeps, try_kmalloc-Keeps, try_kfree-Keeps,
}

module _ (h : Host) where
  abbrev EventsAre : h.syscall_ring.Ring → Maps h → Type 0
  EventsAre r s = s.events ≡ r

  files-EventsAre :
      (r : h.syscall_ring.Ring) (pid : ℕ) → FileWritesKeep h (EventsAre r) (Unit {0}) pid
  unfolding insert_open remove_open insert_fd remove_fd output_file
  files-EventsAre r pid = record {
    to_open = λ _ o. record { at = λ s p. ground arith };
    no_open = λ _. record { at = λ s p. p };
    to_fd = λ _ fd. record { at = λ s p. ground arith };
    no_fd = λ _. record { at = λ s p. p };
    file = λ _ e _. record { at = λ s p. ground arith };
  }

  nets-EventsAre : (r : h.syscall_ring.Ring) → NetWritesKeep h (EventsAre r)
  unfolding track_sock untrack_sock output_net
  nets-EventsAre r = record {
    track = λ k. record { at = λ s p. ground arith };
    untrack = λ k. record { at = λ s p. p };
    net = λ e. record { at = λ s p. ground arith };
  }

  mems-EventsAre :
      (r : h.syscall_ring.Ring) (ctx : TracePointContext)
      → MemWritesKeep h (EventsAre r) (Unit {0}) ctx
  unfolding output_mem
  mems-EventsAre r ctx = record {
    matched = λ s p hit. tt;
    mem = λ _ e _. record { at = λ s p. ground arith };
  }

  counted :
      (kind : EventKind) (ctx : TracePointContext) (s : Maps h) (nr : ℤ)
      → Accepts h.syscall_ring s.events (syscall_event h ctx kind nr)
      → matches_target h ctx ctx.tgid s ≡ true
      → ctx.read_i64 8 ≡ ok nr
      → h.syscall_ring.records (fire h (hook_of kind) ctx s).1.events
        ≡ h.syscall_ring.records s.events ++ syscall_event h ctx kind nr ∷ []
  counted kind ctx s nr room hit e =
      let (r, grown, stepped) = emit_room h ctx kind nr s room hit e in
      rw
        (
          stepped,
          (file_action-Keeps h ctx (files-EventsAre r ctx.tgid) tt kind nr).at
              (record s { events = r }) refl,
        )
        grown

  unreadable :
      (kind : EventKind) (ctx : TracePointContext) (s : Maps h) (x : ℤ)
      → ctx.read_i64 8 ≡ err x
      → (try_emit h ctx kind s).1 ≡ s
  unfolding try_emit emit_syscall ◌>>=◌
  unreadable kind ctx s x e = elim (Bool-cases (matches_target h ctx ctx.tgid s)) [
    | inl hit ↦ rw (hit, e)
    | inr miss ↦ rw miss
  ]

  unmatched :
      (kind : EventKind) (ctx : TracePointContext) (s : Maps h)
      → matches_target h ctx ctx.tgid s ≡ false
      → (try_emit h ctx kind s).1 ≡ s
  unfolding try_emit ◌>>=◌
  unmatched kind ctx s miss = rw miss

  -- The ring accepts the one record of a firing that is logged.
  head :
      (kind : EventKind) (ctx : TracePointContext) (s : Maps h) (nr : ℤ)
      → All (Accepts h.syscall_ring s.events) (logged h s (hook_of kind) ctx)
      → matches_target h ctx ctx.tgid s ≡ true
      → ctx.read_i64 8 ≡ ok nr
      → Accepts h.syscall_ring s.events (syscall_event h ctx kind nr)
  unfolding logged
  head enter ctx s nr room hit e = (rw (hit, e) at room).0
  head exit ctx s nr room hit e = (rw (hit, e) at room).0

  emit_logged :
      (kind : EventKind) (ctx : TracePointContext) (s : Maps h)
      → All (Accepts h.syscall_ring s.events) (logged h s (hook_of kind) ctx)
      → h.syscall_ring.records (fire h (hook_of kind) ctx s).1.events
        ≡ h.syscall_ring.records s.events ++ logged h s (hook_of kind) ctx
  unfolding logged fire program
  emit_logged enter ctx s room = elim (Bool-cases (matches_target h ctx ctx.tgid s)) [
    | inl hit ↦ elim (Result-cases (ctx.read_i64 8)) [
      | inl (nr, e) ↦ rw (hit, e) (counted enter ctx s nr (head enter ctx s nr room hit e) hit e)
      | inr (x, e) ↦ rw (unreadable enter ctx s x e, hit, e, append-nil)
    ]
    | inr miss ↦ rw (unmatched enter ctx s miss, miss, append-nil)
  ]
  emit_logged exit ctx s room = elim (Bool-cases (matches_target h ctx ctx.tgid s)) [
    | inl hit ↦ elim (Result-cases (ctx.read_i64 8)) [
      | inl (nr, e) ↦ rw (hit, e) (counted exit ctx s nr (head exit ctx s nr room hit e) hit e)
      | inr (x, e) ↦ rw (unreadable exit ctx s x e, hit, e, append-nil)
    ]
    | inr miss ↦ rw (unmatched exit ctx s miss, miss, append-nil)
  ]

  -- One firing.
  fire-logged :
      (hook : Hook) (ctx : TracePointContext) (s : Maps h)
      → All (Accepts h.syscall_ring s.events) (logged h s hook ctx)
      → h.syscall_ring.records (fire h hook ctx s).1.events
        ≡ h.syscall_ring.records s.events ++ logged h s hook ctx
  unfolding logged fire program
  fire-logged sys_enter ctx s room = emit_logged enter ctx s room
  fire-logged sys_exit ctx s room = emit_logged exit ctx s room
  fire-logged inet_sock_set_state ctx s room =
      rw ((try_net_state-Keeps h ctx (nets-EventsAre s.events)).at s refl, append-nil)
  fire-logged tcp_retransmit_skb ctx s room =
      rw ((try_net_retransmit-Keeps h ctx (nets-EventsAre s.events)).at s refl, append-nil)
  fire-logged kmalloc ctx s room =
      rw ((try_kmalloc-Keeps h ctx (mems-EventsAre s.events ctx)).at s refl, append-nil)
  fire-logged kfree ctx s room =
      rw ((try_kfree-Keeps h ctx (mems-EventsAre s.events ctx)).at s refl, append-nil)

  logged-SameFilters :
      (s t : Maps h)
      → SameFilters h s t
      → (hook : Hook) (ctx : TracePointContext) → logged h t hook ctx ≡ logged h s hook ctx
  unfolding logged
  logged-SameFilters s t f sys_enter ctx = rw (matches-SameFilters h s t ctx ctx.tgid f)
  logged-SameFilters s t f sys_exit ctx = rw (matches-SameFilters h s t ctx ctx.tgid f)
  logged-SameFilters s t f inet_sock_set_state ctx = refl
  logged-SameFilters s t f tcp_retransmit_skb ctx = refl
  logged-SameFilters s t f kmalloc ctx = refl
  logged-SameFilters s t f kfree ctx = refl

  log-SameFilters :
      (s t : Maps h)
      → SameFilters h s t
      → (steps : List (Hook × TracePointContext)) → log h t steps ≡ log h s steps
  unfolding log
  log-SameFilters s t f [] = refl
  log-SameFilters s t f ((hook, ctx) ∷ rest) =
      rw (logged-SameFilters s t f hook ctx, log-SameFilters s t f rest)

  -- Every record of the log of a run is accepted by the ring as it stands when the programs come to
  -- write it.
  unfoldable pub Fits : Maps h → List (Hook × TracePointContext) → Type 0
  Fits s [] = Unit {0}
  Fits s ((hook, ctx) ∷ rest) =
      All (Accepts h.syscall_ring s.events) (logged h s hook ctx) × Fits (fire h hook ctx s).1 rest

  -- If the ring of syscall events, as it stands at each firing of the run, accepts the record that is
  -- to be logged of that firing, the run appends to the ring exactly its log: one record for each
  -- enter and each exit, of a task that passes the filters, whose syscall number can be read, in
  -- the order of the firings, and nothing else.
  pub run_logged :
      (steps : List (Hook × TracePointContext)) (s : Maps h)
      → Fits s steps
      → h.syscall_ring.records (run h steps s).events
        ≡ h.syscall_ring.records s.events ++ log h s steps
  unfolding run log Fits
  run_logged [] s _ = rw append-nil
  run_logged ((hook, ctx) ∷ rest) s (room, later) =
      let t = (fire h hook ctx s).1 in
      run_logged rest t later
      ∙ rw (
        fire-logged hook ctx s room,
        log-SameFilters s t (fire-SameFilters h hook ctx s) rest,
        append_assoc,
      )
