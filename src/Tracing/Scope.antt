-- ===== src/Tracing/Scope.antt =====
-- Whose files peekbeam/src/main.rs shows, when the programs of peekbeam-ebpf/src/main.rs have filtered on
-- the target.
use peekbeam.Prelude.{
  ℕ, ◌≡◌, Bool-cases, inl, inr, none, some, List, [], ◌∷◌, map, foldl, ◌==◌, Eq, nat_eq, pair_eq,
}
use peekbeam.Data.Int.{int_eq}
use peekbeam.Data.Lists.{All}
use peekbeam.Data.HashMap
use peekbeam.Data.HashMap.{HashMap}
use peekbeam.Common.{FileEventKind, opened, close, read, write, FileEvent}
use peekbeam.Common.Layout.{file_event_size, decode_file, encode_file}
use peekbeam.Common.RoundTrip.{FileInRange, file_round_trip}
use peekbeam.Ebpf.Host.{Host, TracePointContext}
use peekbeam.Ebpf.State.{Maps}
use peekbeam.Ebpf.Programs.{Hook, run}
use peekbeam.Ebpf.Proofs.Filtering.{IsScoped, Passes, run-IsScoped}
use peekbeam.Userspace.Stats.{FilesMap}
use peekbeam.Userspace.Apply.{file_by, apply_file}
use peekbeam.Userspace.Drain.{drain_file_events}
use peekbeam.Userspace.Proofs.Draining.{drain-encode}

module _ {K V : Type 0} ⦃e : Eq K⦄ (P : K → Type 0) where
  -- Every key of the table has the property.
  abbrev pub AllKeys : HashMap K V → Type 0
  AllKeys m = All (λ x. P x.0) m.entries

  put-All :
      (k : K) (v : V) (l : List (K × V))
      → P k
      → All (λ x. P x.0) l
      → All (λ x. P x.0) (HashMap.put k v l)
  unfolding HashMap.put
  put-All k v [] p a = (p, tt)
  put-All k v ((j, w) ∷ l) p a = elim (Bool-cases (j == k)) [
    | inl same ↦ rw same (p, a.1)
    | inr other ↦ rw other (a.0, put-All k v l p a.1)
  ]

  pub insert-AllKeys :
      (m : HashMap K V) (k : K) (v : V) → P k → AllKeys m → AllKeys (HashMap.insert m k v)
  unfolding HashMap.insert
  insert-AllKeys m k v p a = put-All k v m.entries p a

  pub get_mut-AllKeys :
      (m : HashMap K V) (k : K) (f : V → V) → P k → AllKeys m → AllKeys (HashMap.get_mut m k f)
  unfolding HashMap.get_mut
  get_mut-AllKeys m k f p a =
      elim (HashMap.get m k)
        as (λ o. AllKeys (elim o [ none ↦ m | some v ↦ HashMap.insert m k (f v) ])) [
          | none ↦ a
          | some v ↦ insert-AllKeys m k (f v) p a
        ]

module _ (Q : ℕ → Type 0) where
  -- The table shows files of processes with the property only.
  abbrev pub FilesOf : FilesMap → Type 0
  FilesOf = AllKeys (λ k. Q k.0)

  file_by-FilesOf :
      (kind : FileEventKind) (e : FileEvent) (m : FilesMap)
      → Q e.pid
      → FilesOf m
      → FilesOf (file_by kind e m)
  unfolding file_by HashMap.entry
  file_by-FilesOf opened e m q a = insert-AllKeys (λ k. Q k.0) m (e.pid, e.fd) _ q a
  file_by-FilesOf close e m q a = get_mut-AllKeys (λ k. Q k.0) m (e.pid, e.fd) _ q a
  file_by-FilesOf read e m q a = insert-AllKeys (λ k. Q k.0) m (e.pid, e.fd) _ q a
  file_by-FilesOf write e m q a = insert-AllKeys (λ k. Q k.0) m (e.pid, e.fd) _ q a

  apply_file-FilesOf :
      (events : List FileEvent) (m : FilesMap)
      → All (λ e. Q e.pid) events
      → FilesOf m
      → FilesOf (foldl apply_file m events)
  unfolding apply_file
  apply_file-FilesOf [] m q a = a
  apply_file-FilesOf (e ∷ events) m q a =
      apply_file-FilesOf events (apply_file m e) q.1 (file_by-FilesOf e.kind e m q.0 a)

  -- The loop over the bytes of events has a result, which shows files of such processes only.
  pub record ShowsOnly (fill : ℕ) (events : List FileEvent) (files : FilesMap) : Type 0 where
    pub after : FilesMap
    pub drained : drain_file_events (map (encode_file fill) events) files ≡ some after
    pub owners : FilesOf after

  -- If every task of a run that passes the filters has a property of its process id, and so have the
  -- processes of the records before the run and of the files shown, then draining what the ring of file
  -- events holds after the run, with its fields in the range of their types, has a result, and it shows
  -- files of processes with the property only.
  pub files_scoped :
      (h : Host) (pids cgroups : h.u8_map.Map) (steps : List (Hook × TracePointContext))
      (s : Maps h) (fill : ℕ) (files : FilesMap)
      → All (λ e. Passes h pids cgroups e.1 → Q e.1.tgid) steps
      → IsScoped h pids cgroups Q s
      → All FileInRange (h.file_ring.records (run h steps s).file_events)
      → FilesOf files
      → ShowsOnly fill (h.file_ring.records (run h steps s).file_events) files
  unfolding drain_file_events
  files_scoped h pids cgroups steps s fill files passers scoped ranges a =
      let events = h.file_ring.records (run h steps s).file_events in
      record {
        after = foldl apply_file files events;
        drained =
            drain-encode file_event_size decode_file apply_file (encode_file fill) FileInRange
              (file_round_trip fill) events files ranges;
        owners =
            apply_file-FilesOf events files
              (run-IsScoped h pids cgroups Q steps s passers scoped).files a;
      }
