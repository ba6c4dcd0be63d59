-- ===== src/Startup/Proofs/Scope.antt =====
-- What the programs have written when `main` of peekbeam/src/main.rs has attached them.
use peekbeam.Prelude.{ℕ, ◌≡◌, Option, none, some, []}
use peekbeam.Data.Lists.{All}
use peekbeam.Ebpf.Host.{Host}
use peekbeam.Ebpf.State.{Maps}
use peekbeam.Startup.{Target}
use peekbeam.Startup.Launch.{Kernel, Launched, refused, not_loaded, stopped, ready}

module _ (h : Host) where
  -- Loaded maps: no entry in the filters, no record in the rings that name a process.
  pub record IsFresh (s : Maps h) : Type 0 where
    pub no_pids : (k : ℕ) → h.u8_map.get s.pid_filter k ≡ none
    pub no_cgroups : (k : ℕ) → h.u8_map.get s.cgroup_filter k ≡ none
    pub no_syscalls : h.syscall_ring.records s.events ≡ []
    pub no_files : h.file_ring.records s.file_events ≡ []
    pub no_mems : h.mem_ring.records s.mem_events ≡ []

  -- The process of every record has the property.
  pub record OnlyOf (Q : ℕ → Type 0) (s : Maps h) : Type 0 where
    pub syscalls : All (λ e. Q e.pid) (h.syscall_ring.records s.events)
    pub files : All (λ e. Q e.pid) (h.file_ring.records s.file_events)
    pub mems : All (λ e. Q e.pid) (h.mem_ring.records s.mem_events)

  -- The maps as `main` leaves them, where it has loaded them.
  abbrev pub maps_of : Launched h → Option (Maps h)
  maps_of (refused e) = none
  maps_of not_loaded = none
  maps_of (stopped s) = some s
  maps_of (ready t s) = some s

  module _ (k : Kernel h) (t : Target) (Q : ℕ → Type 0) where
    abbrev Scoped : Launched h → Type 0
    Scoped o = (s : Maps h) → maps_of o ≡ some s → OnlyOf Q s
