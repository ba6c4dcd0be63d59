-- ===== src/Tests/Together.antt =====
-- An open file, from the tracepoints to the table.
use peekbeam.Prelude.{refl, ◌≡◌}
use peekbeam.Data.Int.{pos, as_i32}
use peekbeam.Data.HashMap
use peekbeam.FileTable.{format_path}
use peekbeam.Ebpf.Programs.{run, sys_exit, fire}
use peekbeam.Ebpf.Proofs.Pairing.{between}
use peekbeam.Tracing.{ShowsOpened, open_shown}
use peekbeam.Tracing.Scope.{ShowsOnly, files_scoped}
use peekbeam.Tests.Machine.{host, pid_7, begin, a_path}
use peekbeam.Tests.Kernel.{
  enter_open, exit_open, meanwhile, meanwhile_others, is_target, enters, exits, room_to_open,
  between-InRange, opened-InRange, session, session-passers, session-InRange, begin-IsScoped,
}

open_shown_example :
    ShowsOpened 170
      (fire host sys_exit exit_open (between host enter_open meanwhile begin)).1.file_events
      HashMap.new
      (7, as_i32 (pos 3))
      (format_path a_path 2)
open_shown_example =
    open_shown host enter_open exit_open meanwhile begin refl (is_target enter_open refl)
      (is_target exit_open refl) meanwhile_others enters exits room_to_open refl between-InRange
      opened-InRange 170 HashMap.new

files_scoped_example : ShowsOnly (λ q. q ≡ 7) 170 (run host session begin).file_events HashMap.new
files_scoped_example =
    files_scoped (λ q. q ≡ 7) host pid_7 HashMap.new session begin 170 HashMap.new session-passers
      begin-IsScoped session-InRange tt
