-- ===== src/Ebpf/Proofs/Writes.antt =====
-- The single writes to a map or a ring buffer (peekbeam-ebpf/src/main.rs): each is accepted, with
-- the effect that the kernel documents, or refused, with no effect.
use peekbeam.Prelude.{ℕ, ◌≡◌, refl, ◌⊎◌, inl, inr, ◌++◌, [], ◌∷◌}
use peekbeam.Data.Int.{ℤ}
use peekbeam.Data.Exec.{Result, ok, err}
use peekbeam.Common.{SyscallEvent, NetEvent, FileEvent, MemEvent}
use peekbeam.Ebpf.Host.{Host, PendingOpen}
use peekbeam.Ebpf.State.{
  Maps, track_sock, insert_open, insert_fd, output_syscall, output_net, output_file, output_mem,
}

pub Result-cases {ℓ} :
    {A : Type ℓ} (r : Result A) → ((a : A) × (r ≡ ok a)) ⊎ ((e : ℤ) × (r ≡ err e))
Result-cases (ok a) = inl (a, refl)
Result-cases (err e) = inr (e, refl)

module _ (h : Host) where
  module _ (s : Maps h) where
    pub track_sock-cases :
        (k : ℕ)
        → ((m : h.u8_map.Map) × (h.u8_map.insert s.tracked_socks k 1 ≡ ok m)
            × (track_sock h k s ≡ (ok tt, record s { tracked_socks = m })))
          ⊎ ((e : ℤ) × (track_sock h k s ≡ (err e, s)))
    unfolding track_sock
    track_sock-cases k = elim (Result-cases (h.u8_map.insert s.tracked_socks k 1)) [
      | inl (m, e) ↦ inl (m, e, rw (e, track_sock))
      | inr (x, e) ↦ inr (x, rw (e, track_sock))
    ]

    pub insert_open-cases :
        (k : ℕ) (p : PendingOpen)
        → ((m : h.open_map.Map) × (h.open_map.insert s.pending_open_path k p ≡ ok m)
            × (insert_open h k p s ≡ (ok tt, record s { pending_open_path = m })))
          ⊎ ((e : ℤ) × (insert_open h k p s ≡ (err e, s)))
    unfolding insert_open
    insert_open-cases k p = elim (Result-cases (h.open_map.insert s.pending_open_path k p)) [
      | inl (m, e) ↦ inl (m, e, rw (e, insert_open))
      | inr (x, e) ↦ inr (x, rw (e, insert_open))
    ]

    pub insert_fd-cases :
        (k : ℕ) (fd : ℤ)
        → ((m : h.fd_map.Map) × (h.fd_map.insert s.pending_fd k fd ≡ ok m)
            × (insert_fd h k fd s ≡ (ok tt, record s { pending_fd = m })))
          ⊎ ((e : ℤ) × (insert_fd h k fd s ≡ (err e, s)))
    unfolding insert_fd
    insert_fd-cases k fd = elim (Result-cases (h.fd_map.insert s.pending_fd k fd)) [
      | inl (m, e) ↦ inl (m, e, rw (e, insert_fd))
      | inr (x, e) ↦ inr (x, rw (e, insert_fd))
    ]

    pub output_syscall-cases :
        (a : SyscallEvent)
        → ((r : h.syscall_ring.Ring) × (h.syscall_ring.records r
              ≡ h.syscall_ring.records s.events ++ a ∷ [])
            × (output_syscall h a s ≡ (ok tt, record s { events = r })))
          ⊎ ((e : ℤ) × (output_syscall h a s ≡ (err e, s)))
    unfolding output_syscall
    output_syscall-cases a = elim (Result-cases (h.syscall_ring.output s.events a)) [
      | inl (r, e) ↦ inl (r, h.syscall_ring.records-output s.events r a e, rw (e, output_syscall))
      | inr (x, e) ↦ inr (x, rw (e, output_syscall))
    ]

    pub output_net-cases :
        (a : NetEvent)
        → ((r : h.net_ring.Ring) × (h.net_ring.records r
              ≡ h.net_ring.records s.net_events ++ a ∷ [])
            × (output_net h a s ≡ (ok tt, record s { net_events = r })))
          ⊎ ((e : ℤ) × (output_net h a s ≡ (err e, s)))
    unfolding output_net
    output_net-cases a = elim (Result-cases (h.net_ring.output s.net_events a)) [
      | inl (r, e) ↦ inl (r, h.net_ring.records-output s.net_events r a e, rw (e, output_net))
      | inr (x, e) ↦ inr (x, rw (e, output_net))
    ]

    pub output_file-cases :
        (a : FileEvent)
        → ((r : h.file_ring.Ring) × (h.file_ring.records r
              ≡ h.file_ring.records s.file_events ++ a ∷ [])
            × (output_file h a s ≡ (ok tt, record s { file_events = r })))
          ⊎ ((e : ℤ) × (output_file h a s ≡ (err e, s)))
    unfolding output_file
    output_file-cases a = elim (Result-cases (h.file_ring.output s.file_events a)) [
      | inl (r, e) ↦ inl (r, h.file_ring.records-output s.file_events r a e, rw (e, output_file))
      | inr (x, e) ↦ inr (x, rw (e, output_file))
    ]

    pub output_mem-cases :
        (a : MemEvent)
        → ((r : h.mem_ring.Ring) × (h.mem_ring.records r
              ≡ h.mem_ring.records s.mem_events ++ a ∷ [])
            × (output_mem h a s ≡ (ok tt, record s { mem_events = r })))
          ⊎ ((e : ℤ) × (output_mem h a s ≡ (err e, s)))
    unfolding output_mem
    output_mem-cases a = elim (Result-cases (h.mem_ring.output s.mem_events a)) [
      | inl (r, e) ↦ inl (r, h.mem_ring.records-output s.mem_events r a e, rw (e, output_mem))
      | inr (x, e) ↦ inr (x, rw (e, output_mem))
    ]
