-- ===== src/Tracing.antt =====
-- Both sides together: what the programs of peekbeam-ebpf/src/main.rs write is what the loops of
-- peekbeam/src/main.rs read. The bytes of a record stand in its ring buffer (peekbeam-common/src/lib.rs).
pub mod Scope
use peekbeam.Prelude.{
  nat_eq, pair_eq, ℕ, ◌%◌, ◌^◌, ◌≡◌, refl, true, false, some, List, [], ◌∷◌, ◌++◌, map, foldl,
}
use peekbeam.Data.Int.{int_eq, ℤ, is_neg, as_i32}
use peekbeam.Data.Lists.{All, All-append}
use peekbeam.Data.HashMap
use peekbeam.Data.HashMap.{HashMap}
use peekbeam.Common.{FileEvent, opened}
use peekbeam.Common.Layout.{file_event_size, decode_file, encode_file}
use peekbeam.Common.RoundTrip.{FileInRange, file_round_trip}
use peekbeam.FileTable.{format_path}
use peekbeam.Ebpf.Host.{Host, TracePointContext}
use peekbeam.Ebpf.State.{Maps, matches_target}
use peekbeam.Ebpf.Programs.{Hook, sys_exit, fire}
use peekbeam.Ebpf.Proofs.Frames.{IsOther}
use peekbeam.Ebpf.Proofs.Pairing.{
  EntersOpen, ExitsOpen, RoomToOpen, open_event, between, open_recorded,
}
use peekbeam.Userspace.Stats.{FilesMap}
use peekbeam.Userspace.Apply.{apply_file}
use peekbeam.Userspace.Drain.{drain_file_events}
use peekbeam.Userspace.Proofs.Draining.{drain-encode}
use peekbeam.Userspace.Proofs.OpenFiles.{file_shown}

-- The loop over the bytes of events has a result, and it shows the file as just opened.
pub record ShowsOpened (fill : ℕ) (events : List FileEvent) (files : FilesMap) (k : ℕ × ℤ)
    (path : List ℕ) : Type 0 where
  pub after : FilesMap
  pub drained : drain_file_events (map (encode_file fill) events) files ≡ some after
  pub entry :
      HashMap.get after k
      ≡ some (record { path = path; bytes_read = 0; bytes_written = 0; closed = false })

drained_opening :
    (fill : ℕ) (earlier : List FileEvent) (e : FileEvent) (files : FilesMap)
    → e.kind ≡ opened
    → All FileInRange earlier
    → FileInRange e
    → ShowsOpened fill (earlier ++ e ∷ []) files (e.pid, e.fd) (format_path e.path e.path_len)
unfolding drain_file_events
drained_opening fill earlier e files opens ranges range = record {
  after = foldl apply_file files (earlier ++ e ∷ []);
  drained =
      drain-encode file_event_size decode_file apply_file (encode_file fill) FileInRange
        (file_round_trip fill) (earlier ++ e ∷ []) files
        (All-append FileInRange earlier (e ∷ []) ranges (range, tt));
  entry = file_shown earlier e [] files opens tt;
}

module _ (h : Host) (c₁ c₂ : TracePointContext) (mid : List (Hook × TracePointContext))
    (s : Maps h) where
  -- When a task of the target enters `openat` (56) or `openat2` (437) and a task of the same process
  -- leaves one with success, only other processes fire in between, and the rings and the map of
  -- pending paths have room where these two firings write, then draining what the ring of file
  -- events holds, with its fields in the range of their types, has a result, and in it the process
  -- and the descriptor returned show the path that was read at the enter, with no bytes and open,
  -- whatever the table showed before.
  pub open_shown :
      (same : c₂.tgid ≡ c₁.tgid)
      → matches_target h c₁ c₁.tgid s ≡ true
      → matches_target h c₂ c₂.tgid s ≡ true
      → All (IsOther c₁.tgid) mid
      → {path : List ℕ} {len : ℕ} {ret : ℤ} (en : EntersOpen c₁ path len) (ex : ExitsOpen c₂ ret)
      → RoomToOpen h c₁ c₂ mid s en ex
      → is_neg ret ≡ false
      → All FileInRange (h.file_ring.records (between h c₁ mid s).file_events)
      → FileInRange (open_event h c₂ ret path (len % 2 ^ 16))
      → (fill : ℕ) (files : FilesMap)
      → ShowsOpened fill
          (h.file_ring.records (fire h sys_exit c₂ (between h c₁ mid s)).1.file_events)
          files
          (c₂.tgid, as_i32 ret)
          (format_path path (len % 2 ^ 16))
  unfolding open_event
  open_shown same hit₁ hit₂ others {path} {len} {ret} en ex room fine ranges range fill files =
      let (_, written, _) = open_recorded h c₁ c₂ mid s same hit₁ hit₂ others en ex room in
      rw (written, fine)
        (drained_opening fill _ (open_event h c₂ ret path (len % 2 ^ 16)) files refl ranges range)
