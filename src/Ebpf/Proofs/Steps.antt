-- ===== src/Ebpf/Proofs/Steps.antt =====
-- One rule for the six programs of peekbeam-ebpf/src/main.rs: an invariant that the single writes
-- keep is kept by every program, and by every run.
use peekbeam.Prelude.{ℕ, ◌≡◌, refl, Bool, true, Option, none, some, List, [], ◌∷◌}
use peekbeam.Data.Int.{ℤ}
use peekbeam.Data.Lists.{All}
use peekbeam.Data.Keeps.{
  Keeps, Keeps-bind, Keeps-lift, Keeps-gets, Keeps-pure, Keeps-ignore, Keeps-caught, Keeps-when,
  keeps_rules,
}
use peekbeam.Common.{
  EventKind, enter, exit, SyscallEvent, NetEvent, FileEvent, FileEventKind, MemEvent,
}
use peekbeam.Ebpf.Host.{Host, PendingOpen, TracePointContext}
use peekbeam.Ebpf.State.{
  Maps, matches_target, track_sock, untrack_sock, insert_open, remove_open, insert_fd, remove_fd,
  output_syscall, output_net, output_file, output_mem,
}
use peekbeam.Ebpf.Files.{
  stash_open_path, report_open, emit_open_result, stash_fd, take_read_write, emit_read_write,
  take_close, emit_close, file_action, handle_file_syscall,
}
use peekbeam.Ebpf.Net.{
  read_addrs, emit_net, net_state_body, try_net_state, net_retransmit_body, try_net_retransmit,
}
use peekbeam.Ebpf.Mem.{try_kmalloc, try_kfree}
use peekbeam.Ebpf.Syscalls.{emit_syscall, try_emit}
use peekbeam.Ebpf.Programs.{
  Hook, sys_enter, sys_exit, inet_sock_set_state, tcp_retransmit_skb, kmalloc, kfree, program, fire,
  run,
}

-- The single writes keep `P`; those that only a task of the target makes may use `M`. The writes of
-- the file half of a syscall:
pub record FileWritesKeep (h : Host) (P : Maps h → Type 0) (M : Type 0) (pid : ℕ) : Type 0 where
  pub to_open : M → (p : PendingOpen) → Keeps P (insert_open h pid p)
  pub no_open : M → Keeps P (remove_open h pid)
  pub to_fd : M → (fd : ℤ) → Keeps P (insert_fd h pid fd)
  pub no_fd : M → Keeps P (remove_fd h pid)
  pub file : M → (e : FileEvent) → e.pid ≡ pid → Keeps P (output_file h e)

-- those of the network programs:
pub record NetWritesKeep (h : Host) (P : Maps h → Type 0) : Type 0 where
  pub track : (k : ℕ) → Keeps P (track_sock h k)
  pub untrack : (k : ℕ) → Keeps P (untrack_sock h k)
  pub net : (e : NetEvent) → Keeps P (output_net h e)

-- and those of the memory programs.
pub record MemWritesKeep (h : Host) (P : Maps h → Type 0) (M : Type 0) (ctx : TracePointContext)
    : Type 0 where
  pub matched : (s : Maps h) → P s → matches_target h ctx ctx.tgid s ≡ true → M
  pub mem : M → (e : MemEvent) → e.pid ≡ ctx.tgid → Keeps P (output_mem h e)

pub record WritesKeep (h : Host) (P : Maps h → Type 0) (M : Type 0) (ctx : TracePointContext)
    : Type 0 where
  pub files : FileWritesKeep h P M ctx.tgid
  pub nets : NetWritesKeep h P
  pub mems : MemWritesKeep h P M ctx
  pub syscall : M → (e : SyscallEvent) → e.pid ≡ ctx.tgid → Keeps P (output_syscall h e)

module _ (h : Host) {P : Maps h → Type 0} {M : Type 0} (ctx : TracePointContext)
    (w : FileWritesKeep h P M ctx.tgid) (m : M) where
  report_open-Keeps : (o : Option PendingOpen) → Keeps P (report_open h ctx ctx.tgid o)
  unfolding report_open
  report_open-Keeps none = search keeps_rules
  report_open-Keeps (some p) = search (keeps_rules, w.file m)

  take_read_write-Keeps :
      (kind : FileEventKind) (o : Option ℤ) → Keeps P (take_read_write h ctx ctx.tgid kind o)
  unfolding take_read_write
  take_read_write-Keeps kind none = search keeps_rules
  take_read_write-Keeps kind (some fd) =
      Keeps-bind _ _ (w.no_fd m) (λ _. search (keeps_rules, w.file m))

  take_close-Keeps : (o : Option ℤ) → Keeps P (take_close h ctx ctx.tgid o)
  unfolding take_close
  take_close-Keeps none = search keeps_rules
  take_close-Keeps (some fd) = Keeps-bind _ _ (w.no_fd m) (λ _. search (keeps_rules, w.file m))

  emit_open_result-Keeps : Keeps P (emit_open_result h ctx ctx.tgid)
  unfolding emit_open_result
  emit_open_result-Keeps =
      Keeps-bind _ _ (Keeps-gets _) (λ o. Keeps-bind _ _ (w.no_open m) (λ _. report_open-Keeps o))

  emit_read_write-Keeps : (kind : FileEventKind) → Keeps P (emit_read_write h ctx ctx.tgid kind)
  unfolding emit_read_write
  emit_read_write-Keeps kind = Keeps-bind _ _ (Keeps-gets _) (take_read_write-Keeps kind)

  emit_close-Keeps : Keeps P (emit_close h ctx ctx.tgid)
  unfolding emit_close
  emit_close-Keeps = Keeps-bind _ _ (Keeps-gets _) take_close-Keeps

  pub file_action-Keeps : (kind : EventKind) (nr : ℤ) → Keeps P (file_action h ctx kind ctx.tgid nr)
  unfolding file_action stash_open_path stash_fd
  file_action-Keeps enter nr = search (keeps_rules, w.to_open m, w.to_fd m)
  file_action-Keeps exit nr =
      search (keeps_rules, emit_open_result-Keeps, emit_read_write-Keeps, emit_close-Keeps)

module _ (h : Host) {P : Maps h → Type 0} (ctx : TracePointContext) (w : NetWritesKeep h P) where
  read_addrs-Keeps : (family s4 d4 s6 d6 : ℕ) → Keeps P (read_addrs h ctx family s4 d4 s6 d6)
  unfolding read_addrs
  read_addrs-Keeps family s4 d4 s6 d6 = search keeps_rules depth 8

  emit_net-Keeps : (e : NetEvent) → Keeps P (emit_net h e)
  emit_net-Keeps e = Keeps-caught (output_net h e) (w.net e)

  net_state_body-Keeps : (k : ℕ) (b : Bool) → Keeps P (net_state_body h ctx k b)
  unfolding net_state_body
  net_state_body-Keeps k b =
      search (keeps_rules, read_addrs-Keeps, emit_net-Keeps, w.track, w.untrack) depth 20

  pub try_net_state-Keeps : Keeps P (try_net_state h ctx)
  unfolding try_net_state
  try_net_state-Keeps = search (keeps_rules, net_state_body-Keeps) depth 8

  pub try_net_retransmit-Keeps : Keeps P (try_net_retransmit h ctx)
  unfolding try_net_retransmit net_retransmit_body
  try_net_retransmit-Keeps = search (keeps_rules, read_addrs-Keeps, emit_net-Keeps) depth 20

module _ (h : Host) {P : Maps h → Type 0} {M : Type 0} (ctx : TracePointContext)
    (w : MemWritesKeep h P M ctx) where
  pub try_kmalloc-Keeps : Keeps P (try_kmalloc h ctx)
  unfolding try_kmalloc
  try_kmalloc-Keeps =
      Keeps-when _ _ _ (λ s p hit. search (keeps_rules, w.mem (w.matched s p hit)) depth 9)
        (Keeps-pure 0)

  pub try_kfree-Keeps : Keeps P (try_kfree h ctx)
  unfolding try_kfree
  try_kfree-Keeps =
      Keeps-when _ _ _ (λ s p hit. search (keeps_rules, w.mem (w.matched s p hit)) depth 9)
        (Keeps-pure 0)

module _ (h : Host) {P : Maps h → Type 0} {M : Type 0} (ctx : TracePointContext)
    (w : WritesKeep h P M ctx) where
  emit_syscall-Keeps : M → (kind : EventKind) → Keeps P (emit_syscall h ctx kind)
  unfolding emit_syscall handle_file_syscall
  emit_syscall-Keeps m kind = Keeps-bind _ _ (Keeps-lift _) (λ nr.
      Keeps-bind _ _ (Keeps-caught _ (w.syscall m _ refl)) (λ _.
        Keeps-bind _ _ (Keeps-ignore _ (file_action-Keeps h ctx w.files m kind nr))
          (λ _. Keeps-pure 0)))

  try_emit-Keeps : (kind : EventKind) → Keeps P (try_emit h ctx kind)
  unfolding try_emit
  try_emit-Keeps kind =
      Keeps-when _ _ _ (λ s p hit. emit_syscall-Keeps (w.mems.matched s p hit) kind) (Keeps-pure 0)

  pub program-Keeps : (hook : Hook) → Keeps P (program h hook ctx)
  unfolding program
  program-Keeps sys_enter = try_emit-Keeps enter
  program-Keeps sys_exit = try_emit-Keeps exit
  program-Keeps inet_sock_set_state = try_net_state-Keeps h ctx w.nets
  program-Keeps tcp_retransmit_skb = try_net_retransmit-Keeps h ctx w.nets
  program-Keeps kmalloc = try_kmalloc-Keeps h ctx w.mems
  program-Keeps kfree = try_kfree-Keeps h ctx w.mems

  pub fire-keeps : (hook : Hook) (s : Maps h) → P s → P (fire h hook ctx s).1
  unfolding fire
  fire-keeps hook s p = (program-Keeps hook).at s p

-- An invariant of all firings of a run holds at its end.
pub run-keeps :
    (h : Host) (P : Maps h → Type 0) (steps : List (Hook × TracePointContext)) (s : Maps h)
    → All (λ e. (t : Maps h) → P t → P (fire h e.0 e.1 t).1) steps
    → P s
    → P (run h steps s)
unfolding run
run-keeps h P [] s k p = p
run-keeps h P ((hook, ctx) ∷ rest) s k p = run-keeps h P rest _ k.1 (k.0 s p)
