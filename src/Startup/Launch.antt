-- ===== src/Startup/Launch.antt =====
-- peekbeam/src/main.rs, `main` from the target to the ring buffers: the programs are loaded, the filter
-- is set, the programs are attached one after the other, and the ring buffers are taken. A program that
-- is attached fires from then on.
use peekbeam.Prelude.{
  ℕ, Bool, true, false, ◌&&◌, Option, none, some, List, [], ◌∷◌, ◌++◌, if◌then◌else◌,
}
use peekbeam.Data.Exec.{Result, ok, err}
use peekbeam.Data.Lists.{length, filter}
use peekbeam.Data.Text.{Text, text}
use peekbeam.Ebpf.Host.{Host, TracePointContext}
use peekbeam.Ebpf.State.{Maps}
use peekbeam.Ebpf.Programs.{
  Hook, sys_enter, sys_exit, inet_sock_set_state, tcp_retransmit_skb, kmalloc, kfree, run,
}
use peekbeam.Container.{System, Failure, Outcome, done, failed}
use peekbeam.Startup.{
  Target, process, container, pod, Args, Privileges, check_privileges, choose_target, set_filter,
}

-- The category and the name of a program.
unfoldable pub tracepoint : Hook → Text × Text
tracepoint sys_enter = (text "raw_syscalls", text "sys_enter")
tracepoint sys_exit = (text "raw_syscalls", text "sys_exit")
tracepoint inet_sock_set_state = (text "sock", text "inet_sock_set_state")
tracepoint tcp_retransmit_skb = (text "tcp", text "tcp_retransmit_skb")
tracepoint kmalloc = (text "kmem", text "kmalloc")
tracepoint kfree = (text "kmem", text "kfree")

-- In the order in which they are attached.
abbrev pub programs : List Hook
programs = sys_enter ∷ sys_exit ∷ inet_sock_set_state ∷ tcp_retransmit_skb ∷ kmalloc ∷ kfree ∷ []

abbrev pub ring_names : List Text
ring_names = text "EVENTS" ∷ text "NET_EVENTS" ∷ text "FILE_EVENTS" ∷ text "MEM_EVENTS" ∷ []

abbrev pub filter_name : Target → Text
filter_name (process pid) = text "PID_FILTER"
filter_name (container c) = text "CGROUP_FILTER"
filter_name (pod name inner) = text "CGROUP_FILTER"

abbrev pub same_hook : Hook → Hook → Bool
same_hook sys_enter sys_enter = true
same_hook sys_exit sys_exit = true
same_hook inet_sock_set_state inet_sock_set_state = true
same_hook tcp_retransmit_skb tcp_retransmit_skb = true
same_hook kmalloc kmalloc = true
same_hook kfree kfree = true
same_hook _ _ = false

abbrev pub is_attached : List Hook → Hook → Bool
is_attached [] hook = false
is_attached (a ∷ as_) hook = if same_hook a hook then true else is_attached as_ hook

module _ (h : Host) where
  -- What aya and the kernel answer: the maps of the loaded programs; whether a map is found under a
  -- name, with the type that is asked for; whether a program is found, loaded and attached. After the
  -- n-th program is attached the tracepoints of `firings n` are passed, until the next call.
  pub record Kernel : Type 0 where
    pub load : Option (Maps h)
    pub has_map : Text → Bool
    pub finds : Text → Bool
    pub loads : Text → Bool
    pub attaches : Text → Text → Bool
    pub firings : ℕ → List (Hook × TracePointContext)

  -- `main` returns an error of its own or of a call to aya, or it goes on to the views; with the maps
  -- as they are then, if the programs are loaded.
  pub data Launched : Type 0 where
    refused : Failure → Launched
    not_loaded : Launched
    stopped : Maps h → Launched
    ready : Target → Maps h → Launched

  -- Only the programs that are attached fire.
  unfoldable pub pass : Kernel → List Hook → Maps h → Maps h
  pass k attached s = run h (filter (λ e. is_attached attached e.0) (k.firings (length attached))) s

  unfoldable pub attach_program : Kernel → Text × Text → Bool
  attach_program k (category, name) = k.finds name && (k.loads name && k.attaches category name)

  abbrev pub all_found : Kernel → List Text → Bool
  all_found k [] = true
  all_found k (name ∷ rest) = k.has_map name && all_found k rest

  -- the `for` loop, and the ring buffers
  unfoldable pub attach_all : Kernel → Target → List Hook → List Hook → Maps h → Launched
  unfolding pass attach_program tracepoint
  attach_all k t [] attached s = if all_found k ring_names then ready t s else stopped s
  attach_all k t (hook ∷ rest) attached s =
      let next = attached ++ hook ∷ [] in
      let after = attach_all k t rest next (pass k next s) in
      if attach_program k (tracepoint hook) then after else stopped s

  unfoldable pub after_filter :
      Kernel → Target → Maps h → Result (h.u8_map.Map × h.u8_map.Map) → Launched
  unfolding attach_all
  after_filter k t s (ok (pids, cgroups)) =
      attach_all k t programs [] (record s { pid_filter = pids; cgroup_filter = cgroups })
  after_filter k t s (err e) = stopped s

  unfoldable pub after_load : Kernel → Target → Option (Maps h) → Launched
  unfolding after_filter
  after_load k t none = not_loaded
  after_load k t (some s) =
      if k.has_map (filter_name t)
      then after_filter k t s (set_filter h t s.pid_filter s.cgroup_filter)
      else stopped s

  unfoldable pub after_privileges : Kernel → Target → Outcome (Unit {0}) → Launched
  unfolding after_load
  after_privileges k t (failed e) = refused e
  after_privileges k t (done u) = after_load k t k.load

  unfoldable pub after_choice : Kernel → Privileges → Outcome Target → Launched
  unfolding after_privileges
  after_choice k p (failed e) = refused e
  after_choice k p (done t) = after_privileges k t (check_privileges p)

  unfoldable pub launch : System → Args → Privileges → Kernel → Launched
  unfolding after_choice
  launch sys a p k = after_choice k p (choose_target sys a)
