-- ===== src/Tests/Launching.antt =====
-- Starting on the process 7, where the second program cannot be attached.
use peekbeam.Prelude.{true, false, not, some, List, [], ◌∷◌, list_beq, nat_eq}
use peekbeam.Data.Int.{pos}
use peekbeam.Data.Text.{text}
use peekbeam.Data.HashMap
use peekbeam.Data.HashMap.{HashMap}
use peekbeam.Ebpf.Host.{TracePointContext}
use peekbeam.Ebpf.State.{Maps}
use peekbeam.Ebpf.Programs.{Hook, sys_enter}
use peekbeam.Startup.{Privileges, choose_target, check_target_exists, set_filter, check_privileges}
use peekbeam.Startup.Launch.{
  Kernel, attach_program, tracepoint, attach_all, after_filter, after_load, after_privileges,
  after_choice, launch, pass,
}
use peekbeam.Tests.Machine.{host, begin, pid_7, fired}

abbrev unfiltered : Maps host
unfiltered = record begin { pid_filter = HashMap.new }

-- Two processes enter a syscall after each program that is attached.
abbrev both : List (Hook × TracePointContext)
both =
    (sys_enter, fired 7 100 ((8, pos 56) ∷ (24, pos 4096) ∷ []))
    ∷ (sys_enter, fired 8 120 ((8, pos 56) ∷ (24, pos 4096) ∷ []))
    ∷ []

abbrev kernel : Kernel host
kernel = record {
  load = some unfiltered;
  has_map = λ name. true;
  finds = λ name. true;
  loads = λ name. true;
  attaches = λ category name. not (list_beq name (text "sys_exit"));
  firings = λ n. both;
}

abbrev root : Privileges
root = record { euid = 0; cap_bpf = false; cap_perfmon = false }

abbrev traced : Maps host
traced = pass host kernel (sys_enter ∷ []) (record unfiltered { pid_filter = pid_7 })

launches : Unit {0}
unfolding launch after_choice after_privileges after_load after_filter attach_all attach_program
    tracepoint list_beq choose_target check_target_exists set_filter check_privileges HashMap.insert
    HashMap.put
launches = tt
