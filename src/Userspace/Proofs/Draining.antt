-- ===== src/Userspace/Proofs/Draining.antt =====
-- The four loops of peekbeam/src/main.rs over the items of their ring buffers, and `poll_events`.
use peekbeam.Prelude.{
  ℕ, ◌≡◌, refl, ◌≢◌, Option, some, List, [], ◌∷◌, ◌++◌, map, foldl, arith, Option-cases, inl, inr,
}
use peekbeam.Data.Lists.{length, All}
use peekbeam.Common.{SyscallEvent, NetEvent, FileEvent, MemEvent}
use peekbeam.Common.Layout.{
  syscall_event_size, net_event_size, file_event_size, mem_event_size, decode_syscall, decode_net,
  decode_file, decode_mem, encode_syscall, encode_net, encode_file, encode_mem,
}
use peekbeam.Common.RoundTrip.{
  SyscallInRange, NetInRange, FileInRange, MemInRange, syscall_round_trip, net_round_trip,
  file_round_trip, mem_round_trip,
}
use peekbeam.Userspace.Stats.{Tables}
use peekbeam.Userspace.Apply.{apply_syscall, apply_net, apply_file, apply_mem}
use peekbeam.Userspace.Drain.{
  ◌>>=◌, drain_item, drain, drain_syscalls, drain_net_events, drain_file_events, drain_mem_events,
  Rings, poll_events,
}

module _ {E S : Type 0} (size : ℕ) (decode : List ℕ → Option E) (apply : S → E → S) where
  -- An item whose length is not the size of the record changes nothing, wherever it stands.
  pub skipped :
      (before : List (List ℕ)) (item : List ℕ) (after : List (List ℕ)) (s : S)
      → length item ≢ size
      → drain size decode apply (before ++ item ∷ after) s
        ≡ drain size decode apply (before ++ after) s
  unfolding drain drain_item
  skipped [] item after s other = ground arith
  skipped (b ∷ before) item after s other = elim (Option-cases (drain_item size decode apply b s)) [
    | inl e ↦ rw e refl
    | inr (s', e) ↦ rw e (skipped before item after s' other)
  ]

  pub drain-append :
      (before after : List (List ℕ)) (s : S)
      → drain size decode apply (before ++ after) s
        ≡ (drain size decode apply before s >>= drain size decode apply after)
  unfolding drain
  drain-append [] after s = refl
  drain-append (b ∷ before) after s = elim (Option-cases (drain_item size decode apply b s)) [
    | inl e ↦ rw e refl
    | inr (s', e) ↦ rw e (drain-append before after s')
  ]

  module _ (encode : E → List ℕ) (InRange : E → Type 0)
      (back : (e : E) → InRange e → (length (encode e) ≡ size) × (decode (encode e) ≡ some e)) where
    pub drain-encode :
        (events : List E) (s : S)
        → All InRange events
        → drain size decode apply (map encode events) s ≡ some (foldl apply s events)
    unfolding drain drain_item
    drain-encode [] s r = refl
    drain-encode (e ∷ events) s r =
        let (long, same) = back e r.0 in
        let here : drain_item size decode apply (encode e) s ≡ some (apply s e) =
          ground (arith, long, same) in
        rw here (drain-encode events (apply s e) r.1)

-- The records that the kernel side has put into the four ring buffers.
pub record Logs : Type 0 where
  pub syscalls : List SyscallEvent
  pub nets : List NetEvent
  pub files : List FileEvent
  pub mems : List MemEvent

abbrev pub rings_of : ℕ → Logs → Rings
rings_of fill l = record {
  ring_buf = map encode_syscall l.syscalls;
  net_ring_buf = map (encode_net fill) l.nets;
  file_ring_buf = map (encode_file fill) l.files;
  mem_ring_buf = map (encode_mem fill) l.mems;
}

pub record LogsInRange (l : Logs) : Type 0 where
  pub syscalls : All SyscallInRange l.syscalls
  pub nets : All NetInRange l.nets
  pub files : All FileInRange l.files
  pub mems : All MemInRange l.mems

-- Polling the bytes of any records whose fields fit their machine types has a result, the tables
-- changed by each record in the order of its ring buffer, whatever the padding bytes hold.
pub poll_events-encoded :
    (fill : ℕ) (l : Logs) (t : Tables)
    → LogsInRange l
    → poll_events (rings_of fill l) t
      ≡ some (record {
        syscalls = foldl apply_syscall t.syscalls l.syscalls;
        connections = foldl apply_net t.connections l.nets;
        files = foldl apply_file t.files l.files;
        mem_events = foldl apply_mem t.mem_events l.mems;
      })
unfolding poll_events drain_syscalls drain_net_events drain_file_events drain_mem_events
poll_events-encoded fill l t r =
    rw
      (
        drain-encode syscall_event_size decode_syscall apply_syscall encode_syscall SyscallInRange
            syscall_round_trip l.syscalls t.syscalls r.syscalls,
        drain-encode net_event_size decode_net apply_net (encode_net fill) NetInRange
            (net_round_trip fill) l.nets t.connections r.nets,
        drain-encode file_event_size decode_file apply_file (encode_file fill) FileInRange
            (file_round_trip fill) l.files t.files r.files,
        drain-encode mem_event_size decode_mem apply_mem (encode_mem fill) MemInRange
            (mem_round_trip fill) l.mems t.mem_events r.mems,
      )
      refl

abbrev pub joined : Rings → Rings → Rings
joined a b = record {
  ring_buf = a.ring_buf ++ b.ring_buf;
  net_ring_buf = a.net_ring_buf ++ b.net_ring_buf;
  file_ring_buf = a.file_ring_buf ++ b.file_ring_buf;
  mem_ring_buf = a.mem_ring_buf ++ b.mem_ring_buf;
}

-- It makes no difference when the ring buffers are polled: polling some items and then more gives
-- what polling all of them at once gives.
pub poll_events-append :
    (a b : Rings) (t : Tables) → poll_events (joined a b) t ≡ (poll_events a t >>= poll_events b)
unfolding poll_events drain_syscalls drain_net_events drain_file_events drain_mem_events
poll_events-append a b t =
    let s = drain-append syscall_event_size decode_syscall apply_syscall a.ring_buf b.ring_buf in
    let n = drain-append net_event_size decode_net apply_net a.net_ring_buf b.net_ring_buf in
    let f = drain-append file_event_size decode_file apply_file a.file_ring_buf b.file_ring_buf in
    let m = drain-append mem_event_size decode_mem apply_mem a.mem_ring_buf b.mem_ring_buf in
    rw (s t.syscalls, n t.connections, f t.files, m t.mem_events) (ground arith)
