-- ===== src/Ebpf/Proofs/Room.antt =====
-- What a write yields that a ring buffer or a map accepts as it stands.
use peekbeam.Prelude.{ℕ, ◌≡◌, ◌++◌, [], ◌∷◌}
use peekbeam.Data.Int.{ℤ}
use peekbeam.Data.Exec.{ok}
use peekbeam.Common.{SyscallEvent, NetEvent, FileEvent}
use peekbeam.Ebpf.Host.{Host, BpfHashMap, RingBuf, PendingOpen}
use peekbeam.Ebpf.State.{Maps, output_syscall, output_file, output_net, insert_open, insert_fd}

-- The ring as it stands accepts the record.
abbrev pub Accepts : {A : Type 0} (r : RingBuf A) → r.Ring → A → Type 0
Accepts r ring a = (ring' : r.Ring) × (r.output ring a ≡ ok ring')

-- The map as it stands takes the entry.
abbrev pub Inserts : {V : Type 0} (m : BpfHashMap V) → m.Map → ℕ → V → Type 0
Inserts m map k v = (map' : m.Map) × (m.insert map k v ≡ ok map')

module _ (h : Host) (s : Maps h) where
  -- What an accepted write yields.
  pub output_syscall_room :
      (a : SyscallEvent)
      → Accepts h.syscall_ring s.events a
      → (r : h.syscall_ring.Ring) × (h.syscall_ring.records r
          ≡ h.syscall_ring.records s.events ++ a ∷ [])
        × (output_syscall h a s ≡ (ok tt, record s { events = r }))
  unfolding output_syscall
  output_syscall_room a (r, e) =
      (r, h.syscall_ring.records-output s.events r a e, rw (e, output_syscall))

  pub output_file_room :
      (a : FileEvent)
      → Accepts h.file_ring s.file_events a
      → (r : h.file_ring.Ring) × (h.file_ring.records r
          ≡ h.file_ring.records s.file_events ++ a ∷ [])
        × (output_file h a s ≡ (ok tt, record s { file_events = r }))
  unfolding output_file
  output_file_room a (r, e) =
      (r, h.file_ring.records-output s.file_events r a e, rw (e, output_file))

  pub output_net_room :
      (a : NetEvent)
      → Accepts h.net_ring s.net_events a
      → (r : h.net_ring.Ring) × (h.net_ring.records r ≡ h.net_ring.records s.net_events ++ a ∷ [])
        × (output_net h a s ≡ (ok tt, record s { net_events = r }))
  unfolding output_net
  output_net_room a (r, e) = (r, h.net_ring.records-output s.net_events r a e, rw (e, output_net))

  pub insert_open_room :
      (k : ℕ) (p : PendingOpen)
      → Inserts h.open_map s.pending_open_path k p
      → (m : h.open_map.Map) × (h.open_map.insert s.pending_open_path k p ≡ ok m)
        × (insert_open h k p s ≡ (ok tt, record s { pending_open_path = m }))
  unfolding insert_open
  insert_open_room k p (m, e) = (m, e, rw (e, insert_open))

  pub insert_fd_room :
      (k : ℕ) (fd : ℤ)
      → Inserts h.fd_map s.pending_fd k fd
      → (m : h.fd_map.Map) × (h.fd_map.insert s.pending_fd k fd ≡ ok m)
        × (insert_fd h k fd s ≡ (ok tt, record s { pending_fd = m }))
  unfolding insert_fd
  insert_fd_room k fd (m, e) = (m, e, rw (e, insert_fd))
