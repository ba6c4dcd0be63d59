-- ===== src/Tests/Kernel.antt =====
-- The eBPF programs on the machine of Tests/Machine.
use peekbeam.Prelude.{ℕ, ◌≡◌, refl, true, none, some, List, [], ◌∷◌, ◌++◌, map, arith, nat_eq}
use peekbeam.Data.Int.{pos, as_i32, as_unsigned}
use peekbeam.Data.Lists.{All}
use peekbeam.Data.HashMap
use peekbeam.Data.HashMap.{HashMap}
use peekbeam.Common.{read}
use peekbeam.Common.RoundTrip.{FileInRange}
use peekbeam.Data.Exec.{◌>>=◌}
use peekbeam.Ebpf.Host.{TracePointContext}
use peekbeam.Ebpf.State.{
  Maps, matches_target, track_sock, untrack_sock, insert_open, remove_open, insert_fd, remove_fd,
  output_syscall, output_net, output_file, output_mem,
}
use peekbeam.Ebpf.Files.{
  is_open, is_read, is_write, is_close, stash_open_path, report_open, emit_open_result, stash_fd,
  take_read_write, emit_read_write, take_close, emit_close, file_action, handle_file_syscall,
}
use peekbeam.Ebpf.Net.{
  read_addrs, net_state_body, try_net_state, net_retransmit_body, try_net_retransmit,
}
use peekbeam.Ebpf.Mem.{try_kmalloc, try_kfree}
use peekbeam.Ebpf.Syscalls.{emit_syscall, try_emit}
use peekbeam.Ebpf.Programs.{Hook, sys_enter, sys_exit, kmalloc, program, fire, run}
use peekbeam.Ebpf.Proofs.Filtering.{IsScoped, Passes, run-IsScoped, pid_mode}
use peekbeam.Ebpf.Proofs.Frames.{IsOther, PendingIs, run-PendingIs}
use peekbeam.Ebpf.Proofs.Untargeted.{fire_untargeted}
use peekbeam.Ebpf.Proofs.Emit.{log, logged}
use peekbeam.Ebpf.Proofs.Log.{Fits, run_logged}
use peekbeam.Ebpf.Proofs.Sockets.{state_event, retransmit_event}
use peekbeam.Ebpf.Proofs.Pairing.{
  EntersOpen, ExitsOpen, openat, RoomToOpen, opening, open_event, between, open_recorded,
}
use peekbeam.Ebpf.Proofs.FdCalls.{EntersFd, ExitsFd, fd_event, reported, reads}
use peekbeam.Ebpf.Proofs.Descriptors.{RoomForFd, fd_recorded}
use peekbeam.Tests.Machine.{host, pid_7, begin, fired, a_path}

programs : Unit {0}
unfolding matches_target track_sock untrack_sock insert_open remove_open insert_fd remove_fd
    output_syscall output_net output_file output_mem is_open is_read is_write is_close
    stash_open_path report_open emit_open_result stash_fd take_read_write emit_read_write take_close
    emit_close file_action handle_file_syscall read_addrs net_state_body try_net_state
    net_retransmit_body try_net_retransmit try_kmalloc try_kfree emit_syscall try_emit program fire
    run logged log Fits state_event retransmit_event open_event opening reported as_i32 as_unsigned
    HashMap.find HashMap.put HashMap.without HashMap.get HashMap.insert HashMap.remove
programs = tt

-- `openat` in the process 7, with firings of the process 8 in between, and a read.
abbrev pub enter_open : TracePointContext
enter_open = fired 7 100 ((8, pos 56) ∷ (24, pos 4096) ∷ [])

abbrev pub exit_open : TracePointContext
exit_open = fired 7 250 ((8, pos 56) ∷ (16, pos 3) ∷ [])

abbrev other_enter : TracePointContext
other_enter = fired 8 120 ((8, pos 56) ∷ (24, pos 4096) ∷ [])

abbrev enter_read : TracePointContext
enter_read = fired 7 300 ((8, pos 63) ∷ (16, pos 3) ∷ [])

abbrev exit_read : TracePointContext
exit_read = fired 7 320 ((8, pos 63) ∷ (16, pos 10) ∷ [])

abbrev alloc_8 : TracePointContext
alloc_8 = fired 8 130 ((32, pos 64) ∷ [])

abbrev pub meanwhile : List (Hook × TracePointContext)
meanwhile = (sys_enter, other_enter) ∷ (kmalloc, alloc_8) ∷ []

abbrev pub session : List (Hook × TracePointContext)
session =
    (sys_enter, enter_open)
    ∷ (sys_enter, other_enter)
    ∷ (kmalloc, alloc_8)
    ∷ (sys_exit, exit_open)
    ∷ (sys_enter, enter_read)
    ∷ (sys_exit, exit_read)
    ∷ []

session-Fits : Fits host begin session
unfolding programs ◌>>=◌
session-Fits =
    (((_, refl), tt), (tt, (tt, (((_, refl), tt), (((_, refl), tt), (((_, refl), tt), tt))))))

run_logged_example : (run host session begin).events ≡ [] ++ log host begin session
run_logged_example = run_logged host session begin session-Fits

-- the process ids and the times in the log
session-log :
    map {B = ℕ × ℕ} (λ e. (e.pid, e.timestamp_ns)) (log host begin session)
    ≡ (7, 100) ∷ (7, 250) ∷ (7, 300) ∷ (7, 320) ∷ []
unfolding programs
session-log = refl

pub begin-IsScoped : IsScoped host pid_7 HashMap.new (λ q. q ≡ 7) begin
begin-IsScoped = record {
  pid_filter = refl;
  cgroup_filter = refl;
  syscalls = tt;
  files = tt;
  mems = tt;
}

pub session-passers : All (λ e. Passes host pid_7 HashMap.new e.1 → e.1.tgid ≡ 7) session
unfolding HashMap.get HashMap.find
session-passers = (
  λ p. refl,
  (
    λ p. absurd (ground (arith, p)),
    (λ p. absurd (ground (arith, p)), (λ p. refl, (λ p. refl, (λ p. refl, tt)))),
  ),
)

pub session-InRange : All FileInRange (run host session begin).file_events
unfolding programs ◌>>=◌
session-InRange = (
  record {
    pid = omega arith;
    fd = omega arith;
    bytes = omega arith;
    path_len = omega arith;
    path = refl;
    timestamp_ns = omega arith;
  },
  (
    record {
      pid = omega arith;
      fd = omega arith;
      bytes = omega arith;
      path_len = omega arith;
      path = refl;
      timestamp_ns = omega arith;
    },
    tt,
  ),
)

pid_mode_example : IsScoped host pid_7 HashMap.new (λ q. q ≡ 7) (run host session begin)
unfolding HashMap.get HashMap.find
pid_mode_example =
    pid_mode host 7 pid_7 HashMap.new (λ k. refl) (λ k. refl) session begin begin-IsScoped

pub enters : EntersOpen enter_open a_path 2
unfolding programs
enters = record {
  nr = pos 56;
  ptr = 4096;
  nr_read = refl;
  opens = openat refl;
  ptr_read = refl;
  copied = refl;
}

pub exits : ExitsOpen exit_open (pos 3)
unfolding programs
exits = record { nr = pos 56; nr_read = refl; opens = openat refl; ret_read = refl }

pub meanwhile_others : All (IsOther 7) meanwhile
meanwhile_others = (omega arith, (omega arith, tt))

pub is_target :
    (ctx : TracePointContext) → ctx.tgid ≡ 7 → matches_target host ctx ctx.tgid begin ≡ true
unfolding matches_target HashMap.get HashMap.find
is_target ctx e = rw e refl

-- Nothing is in the ring of file events before the exit.
pub between-InRange : All FileInRange (between host enter_open meanwhile begin).file_events
unfolding programs ◌>>=◌
between-InRange = tt

pub opened-InRange : FileInRange (open_event host exit_open (pos 3) a_path 2)
unfolding programs
opened-InRange = record {
  pid = omega arith;
  fd = omega arith;
  bytes = omega arith;
  path_len = omega arith;
  path = refl;
  timestamp_ns = omega arith;
}

pub room_to_open : RoomToOpen host enter_open exit_open meanwhile begin enters exits
unfolding programs enters exits ◌>>=◌
room_to_open = record {
  entered = (_, refl);
  stashed = (_, refl);
  left = (_, refl);
  written = ((_, refl), tt);
}

open_recorded_example :
    ((fire host sys_enter enter_open begin).1.file_events ≡ [])
    × ((fire host sys_exit exit_open (between host enter_open meanwhile begin)).1.file_events
        ≡ (between host enter_open meanwhile begin).file_events
          ++ open_event host exit_open (pos 3) a_path 2 ∷ [])
    × (HashMap.get
          (fire host sys_exit exit_open
            (between host enter_open meanwhile begin)).1.pending_open_path
          7
        ≡ none)
open_recorded_example =
    open_recorded host enter_open exit_open meanwhile begin refl (is_target enter_open refl)
      (is_target exit_open refl) meanwhile_others enters exits room_to_open

enters_fd : EntersFd enter_read (pos 3)
unfolding programs
enters_fd = record { nr = pos 63; nr_read = refl; call = reads refl; fd_read = refl }

exits_fd : ExitsFd exit_read (pos 63) (pos 10)
unfolding programs
exits_fd = record { nr_read = refl; call = reads refl; ret_read = refl }

room_for_fd : RoomForFd host enter_read exit_read meanwhile begin enters_fd exits_fd
unfolding programs enters_fd exits_fd ◌>>=◌
room_for_fd = record {
  entered = (_, refl);
  stashed = (_, refl);
  left = (_, refl);
  written = ((_, refl), tt);
}

fd_recorded_example :
    ((fire host sys_enter enter_read begin).1.file_events ≡ [])
    × ((fire host sys_exit exit_read (between host enter_read meanwhile begin)).1.file_events
        ≡ (between host enter_read meanwhile begin).file_events
          ++ fd_event exit_read read (pos 3) (pos 10) ∷ [])
    × (HashMap.get
          (fire host sys_exit exit_read (between host enter_read meanwhile begin)).1.pending_fd
          7
        ≡ none)
unfolding exits_fd reported as_i32
fd_recorded_example =
    fd_recorded host enter_read exit_read meanwhile begin refl (is_target enter_read refl)
      (is_target exit_read refl) meanwhile_others enters_fd exits_fd room_for_fd

fire_untargeted_example : (fire host sys_enter other_enter begin).1 ≡ begin
unfolding matches_target HashMap.get HashMap.find
fire_untargeted_example = fire_untargeted host other_enter begin sys_enter refl

run-IsScoped_example : IsScoped host pid_7 HashMap.new (λ q. q ≡ 7) (run host meanwhile begin)
unfolding HashMap.get HashMap.find
run-IsScoped_example =
    run-IsScoped host pid_7 HashMap.new (λ q. q ≡ 7) meanwhile begin
      (λ p. absurd (ground (arith, p)), (λ p. absurd (ground (arith, p)), tt)) begin-IsScoped

-- An `openat` of the process 7 is pending while the process 8 fires.
abbrev waiting : Maps host
waiting = record begin {
  pending_open_path = record { entries = (7, record { path = a_path; path_len = 2 }) ∷ [] };
}

run-PendingIs_example :
    PendingIs host 7
      (some (record { path = a_path; path_len = 2 }))
      none
      (run host meanwhile waiting)
unfolding HashMap.get HashMap.find
run-PendingIs_example =
    run-PendingIs host 7 (some (record { path = a_path; path_len = 2 })) none meanwhile waiting
      meanwhile_others (record { path = refl; fd = refl })
