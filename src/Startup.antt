-- ===== src/Startup.antt =====
-- peekbeam/src/main.rs, `main`: the arguments, the choice of the target, the privileges, and the entry
-- in one of the two filters of the eBPF side.
pub mod Launch
pub mod Label
pub mod View
pub mod Proofs
use peekbeam.Prelude.{ℕ, Bool, true, false, ◌&&◌, Option, none, some, ◌++◌, nat_beq, if◌then◌else◌}
use peekbeam.Data.Exec.{Result, ok, map_ok}
use peekbeam.Data.Text.{Text, text, decimal}
use peekbeam.Container
use peekbeam.Container.{System, ContainerTarget, Failure, Outcome, done, failed, ◌>>=◌, ◌>>◌}
use peekbeam.Pod
use peekbeam.Ebpf.Host.{Host}

pub data Target : Type 0 where
  process : ℕ → Target
  container : ContainerTarget → Target
  pod : Text → ContainerTarget → Target

-- `mem_stats::MemoryTarget`
pub data MemoryTarget : Type 0 where
  of_pid : ℕ → MemoryTarget
  of_cgroup : Text → MemoryTarget

unfoldable pub memory_target : Target → MemoryTarget
memory_target (process pid) = of_pid pid
memory_target (container c) = of_cgroup c.cgroup_path
memory_target (pod name inner) = of_cgroup inner.cgroup_path

-- `clap` gives one of the first three; `refresh_ms` is in milliseconds, `duration` in seconds.
pub record Args : Type 0 where
  pub pid : Option ℕ
  pub container : Option Text
  pub pod : Option Text
  pub namespace : Text
  pub refresh_ms : ℕ
  pub json : Bool
  pub duration : Option ℕ

-- What the process may do: its user, and two of its effective capabilities.
pub record Privileges : Type 0 where
  pub euid : ℕ
  pub cap_bpf : Bool
  pub cap_perfmon : Bool

unfoldable pub check_privileges : Privileges → Outcome (Unit {0})
check_privileges p =
    if nat_beq p.euid 0
    then done tt
    else if p.cap_bpf && p.cap_perfmon
    then done tt
    else failed Failure.no_privileges

module _ (sys : System) where
  unfoldable pub check_target_exists : ℕ → Outcome (Unit {0})
  check_target_exists pid =
      if sys.exists_ (text "/proc/" ++ decimal pid)
      then done tt
      else failed (Failure.no_such_process pid)

  -- the chain of `if let`
  by_pod : Option Text → Text → Outcome Target
  by_pod none namespace = failed Failure.unreachable
  by_pod (some name) namespace = do inner ← Pod.resolve sys name namespace; done (pod name inner)

  by_container : Option Text → Outcome Target → Outcome Target
  by_container none other = other
  by_container (some id) other = do c ← Container.resolve sys id; done (container c)

  by_pid : Option ℕ → Outcome Target → Outcome Target
  unfolding check_target_exists
  by_pid none other = other
  by_pid (some pid) other = do check_target_exists pid; done (process pid)

  unfoldable pub choose_target : Args → Outcome Target
  unfolding by_pid by_container by_pod
  choose_target a = by_pid a.pid (by_container a.container (by_pod a.pod a.namespace))

module _ (h : Host) where
  -- The two filters after the entry of the target.
  unfoldable pub set_filter :
      Target → h.u8_map.Map → h.u8_map.Map → Result (h.u8_map.Map × h.u8_map.Map)
  set_filter (process pid) pids cgroups = map_ok (λ m. (m, cgroups)) (h.u8_map.insert pids pid 1)
  set_filter (container c) pids cgroups =
      map_ok (λ m. (pids, m)) (h.u8_map.insert cgroups c.cgroup_id 1)
  set_filter (pod name inner) pids cgroups =
      map_ok (λ m. (pids, m)) (h.u8_map.insert cgroups inner.cgroup_id 1)
