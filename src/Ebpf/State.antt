-- ===== src/Ebpf/State.antt =====
-- The maps and ring buffers of peekbeam-ebpf/src/main.rs (its `static`s), the actions on one of
-- them, and the filter on the target.
use peekbeam.Prelude.{ℕ, Bool, true, false, Option, none, some, if◌then◌else◌}
use peekbeam.Data.Int.{ℤ}
use peekbeam.Data.Exec.{ok, err, Exec}
use peekbeam.Common.{SyscallEvent, NetEvent, FileEvent, MemEvent}
use peekbeam.Ebpf.Host.{Host, PendingOpen, TracePointContext}

pub record Maps (h : Host) : Type 0 where
  pub pid_filter : h.u8_map.Map
  pub cgroup_filter : h.u8_map.Map
  pub tracked_socks : h.u8_map.Map
  pub pending_open_path : h.open_map.Map
  pub pending_fd : h.fd_map.Map
  pub events : h.syscall_ring.Ring
  pub net_events : h.net_ring.Ring
  pub file_events : h.file_ring.Ring
  pub mem_events : h.mem_ring.Ring

abbrev pub is_some {ℓ} : {A : Type ℓ} → Option A → Bool
is_some none = false
is_some (some _) = true

module _ (h : Host) where
  -- Each action below changes one map or ring; a refusal leaves it as it was.
  abbrev pub Prog : Type 0 → Type 0
  Prog A = Exec (Maps h) A

  unfoldable pub track_sock : ℕ → Prog (Unit {0})
  track_sock k s = elim (h.u8_map.insert s.tracked_socks k 1) [
    | ok m ↦ (ok tt, record s { tracked_socks = m })
    | err e ↦ (err e, s)
  ]

  unfoldable pub untrack_sock : ℕ → Prog (Unit {0})
  untrack_sock k s = (ok tt, record s { tracked_socks = h.u8_map.remove s.tracked_socks k })

  unfoldable pub insert_open : ℕ → PendingOpen → Prog (Unit {0})
  insert_open k p s = elim (h.open_map.insert s.pending_open_path k p) [
    | ok m ↦ (ok tt, record s { pending_open_path = m })
    | err e ↦ (err e, s)
  ]

  unfoldable pub remove_open : ℕ → Prog (Unit {0})
  remove_open k s =
      (ok tt, record s { pending_open_path = h.open_map.remove s.pending_open_path k })

  unfoldable pub insert_fd : ℕ → ℤ → Prog (Unit {0})
  insert_fd k fd s = elim (h.fd_map.insert s.pending_fd k fd) [
    | ok m ↦ (ok tt, record s { pending_fd = m })
    | err e ↦ (err e, s)
  ]

  unfoldable pub remove_fd : ℕ → Prog (Unit {0})
  remove_fd k s = (ok tt, record s { pending_fd = h.fd_map.remove s.pending_fd k })

  unfoldable pub output_syscall : SyscallEvent → Prog (Unit {0})
  output_syscall a s = elim (h.syscall_ring.output s.events a) [
    | ok r ↦ (ok tt, record s { events = r })
    | err e ↦ (err e, s)
  ]

  unfoldable pub output_net : NetEvent → Prog (Unit {0})
  output_net a s = elim (h.net_ring.output s.net_events a) [
    | ok r ↦ (ok tt, record s { net_events = r })
    | err e ↦ (err e, s)
  ]

  unfoldable pub output_file : FileEvent → Prog (Unit {0})
  output_file a s = elim (h.file_ring.output s.file_events a) [
    | ok r ↦ (ok tt, record s { file_events = r })
    | err e ↦ (err e, s)
  ]

  unfoldable pub output_mem : MemEvent → Prog (Unit {0})
  output_mem a s = elim (h.mem_ring.output s.mem_events a) [
    | ok r ↦ (ok tt, record s { mem_events = r })
    | err e ↦ (err e, s)
  ]

  -- fn matches_target
  unfoldable pub matches_target : TracePointContext → ℕ → Maps h → Bool
  matches_target ctx pid s =
      if is_some (h.u8_map.get s.pid_filter pid)
      then true
      else is_some (h.u8_map.get s.cgroup_filter ctx.cgroup_id)
