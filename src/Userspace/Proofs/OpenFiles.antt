-- ===== src/Userspace/Proofs/OpenFiles.antt =====
-- The files that peekbeam/src/main.rs shows (`drain_file_events`), by the events of each.
use peekbeam.Prelude.{
  ℕ, ◌+◌, ◌%◌, ◌^◌, ◌≡◌, refl, sym, ap, ◌∙◌, Bool, true, false, ◌||◌, some, List, [], ◌∷◌, ◌++◌,
  foldl, arith, ◌==◌, nat_eq, pair_eq, if◌then◌else◌, Bool-cases, inl, inr,
}
use peekbeam.Data.Int.{ℤ, as_unsigned, int_eq}
use peekbeam.Data.HashMap
use peekbeam.Data.HashMap.{HashMap, or_default, get-insert, get-get_mut, get-entry}
use peekbeam.Data.Lists.{All, foldl-append}
use peekbeam.Common.{FileEventKind, opened, close, read, write, FileEvent}
use peekbeam.FileTable.{format_path}
use peekbeam.Userspace.Stats.{add64, FileStats, unknown_file, FilesMap}
use peekbeam.Userspace.Apply.{apply_file, file_by}

-- The process and the descriptor.
abbrev pub file_of : FileEvent → ℕ × ℤ
file_of e = (e.pid, e.fd)

abbrev pub is_opening : FileEvent → Bool
is_opening e = elim e.kind [ opened ↦ true | _ ↦ false ]

abbrev pub is_closing : FileEvent → Bool
is_closing e = elim e.kind [ close ↦ true | _ ↦ false ]

-- The bytes that an event says were read, and written.
abbrev pub read_by : FileEvent → ℕ
read_by e = elim e.kind [ read ↦ as_unsigned 64 e.bytes | _ ↦ 0 ]

abbrev pub written_by : FileEvent → ℕ
written_by e = elim e.kind [ write ↦ as_unsigned 64 e.bytes | _ ↦ 0 ]

-- The events of the file `k`.
abbrev pub of_file : ℕ × ℤ → List FileEvent → List FileEvent
of_file k [] = []
of_file k (e ∷ es) = if file_of e == k then e ∷ of_file k es else of_file k es

abbrev pub bytes_read_by : List FileEvent → ℕ
bytes_read_by [] = 0
bytes_read_by (e ∷ es) = read_by e + bytes_read_by es

abbrev pub bytes_written_by : List FileEvent → ℕ
bytes_written_by [] = 0
bytes_written_by (e ∷ es) = written_by e + bytes_written_by es

abbrev pub closed_by : List FileEvent → Bool
closed_by [] = false
closed_by (e ∷ es) = is_closing e || closed_by es

-- The descriptor `k` is not opened again by the events.
abbrev pub NotReopened : ℕ × ℤ → List FileEvent → Type 0
NotReopened k = All (λ e. file_of e ≡ k → is_opening e ≡ false)

abbrev opened_file : FileEvent → FileStats
opened_file e = record {
  path = format_path e.path e.path_len;
  bytes_read = 0;
  bytes_written = 0;
  closed = false;
}

is_itself : (k : ℕ × ℤ) → (k == k) ≡ true
is_itself k = (pair_eq.beq_iff k k).1 refl

-- One event.
file_by-other :
    (kind : FileEventKind) (e : FileEvent) (m : FilesMap) (k : ℕ × ℤ)
    → (file_of e == k) ≡ false
    → HashMap.get (file_by kind e m) k ≡ HashMap.get m k
unfolding file_by
file_by-other opened e m k other = rw (get-insert m (file_of e) k (opened_file e), other) refl
file_by-other close e m k other =
    rw (get-get_mut m (file_of e) k (λ s. record s { closed = true }), other) refl
file_by-other read e m k other =
    rw
      (
        get-entry m (file_of e) k unknown_file
            (λ s. record s { bytes_read = add64 s.bytes_read (as_unsigned 64 e.bytes) }),
        other,
      )
      refl
file_by-other write e m k other =
    rw
      (
        get-entry m (file_of e) k unknown_file
            (λ s. record s { bytes_written = add64 s.bytes_written (as_unsigned 64 e.bytes) }),
        other,
      )
      refl

file_by-same :
    (kind : FileEventKind) (e : FileEvent) (m : FilesMap) (path : List ℕ) (r w : ℕ) (c : Bool)
    → e.kind ≡ kind
    → is_opening e ≡ false
    → HashMap.get m (file_of e)
      ≡ some
          (record { path = path; bytes_read = r % 2 ^ 64; bytes_written = w % 2 ^ 64; closed = c })
    → HashMap.get (file_by kind e m) (file_of e)
      ≡ some (record {
        path = path;
        bytes_read = (r + read_by e) % 2 ^ 64;
        bytes_written = (w + written_by e) % 2 ^ 64;
        closed = is_closing e || c;
      })
unfolding file_by add64
file_by-same opened e m path r w c same fresh now = absurd (ground (arith, same, fresh))
file_by-same close e m path r w c same fresh now =
    rw
      (
        get-get_mut m (file_of e) (file_of e) (λ s. record s { closed = true }),
        is_itself (file_of e),
        now,
        same,
      )
      (ground arith)
file_by-same read e m path r w c same fresh now =
    rw
      (
        get-entry m (file_of e) (file_of e) unknown_file
            (λ s. record s { bytes_read = add64 s.bytes_read (as_unsigned 64 e.bytes) }),
        is_itself (file_of e),
        now,
        same,
      )
      (ground arith)
file_by-same write e m path r w c same fresh now =
    rw
      (
        get-entry m (file_of e) (file_of e) unknown_file
            (λ s. record s { bytes_written = add64 s.bytes_written (as_unsigned 64 e.bytes) }),
        is_itself (file_of e),
        now,
        same,
      )
      (ground arith)

-- The events of a file that is shown.
open_file :
    (k : ℕ × ℤ) (es : List FileEvent) (m : FilesMap) (path : List ℕ) (r w : ℕ) (c : Bool)
    → NotReopened k es
    → HashMap.get m k
      ≡ some
          (record { path = path; bytes_read = r % 2 ^ 64; bytes_written = w % 2 ^ 64; closed = c })
    → HashMap.get (foldl apply_file m es) k
      ≡ some (record {
        path = path;
        bytes_read = (r + bytes_read_by (of_file k es)) % 2 ^ 64;
        bytes_written = (w + bytes_written_by (of_file k es)) % 2 ^ 64;
        closed = closed_by (of_file k es) || c;
      })
unfolding apply_file
open_file k [] m path r w c fresh now = ground (arith, now)
open_file k (e ∷ es) m path r w c fresh now = elim (Bool-cases (file_of e == k)) [
  | inl here ↦
      let same : file_of e ≡ k = (pair_eq.beq_iff (file_of e) k).0 here in
      let step =
        file_by-same e.kind e m path r w c refl (fresh.0 same) (ap (HashMap.get m) same ∙ now) in
      rw here (
        open_file k es (apply_file m e) path (r + read_by e) (w + written_by e) (is_closing e || c)
          fresh.1 (ap (HashMap.get (apply_file m e)) (sym same) ∙ step)
        ∙ ground arith)
  | inr other ↦
      rw other (
        open_file k es (apply_file m e) path r w c fresh.1 (file_by-other e.kind e m k other ∙ now))
]

-- What is shown of a file that an event opened, by the events that follow.
abbrev pub shown : FileEvent → List FileEvent → FileStats
shown e later = record {
  path = format_path e.path e.path_len;
  bytes_read = bytes_read_by later % 2 ^ 64;
  bytes_written = bytes_written_by later % 2 ^ 64;
  closed = closed_by later;
}

-- After any events, an open event and any later events that do not open the same descriptor of the
-- same process again, the descriptor shows the path of the open, the sums (modulo 2^64) of the bytes
-- that the later reads and writes of it report, and whether one of the later events closed it;
-- events of other descriptors make no difference.
pub file_shown :
    (before : List FileEvent) (e : FileEvent) (later : List FileEvent) (m : FilesMap)
    → e.kind ≡ opened
    → NotReopened (file_of e) later
    → HashMap.get (foldl apply_file m (before ++ e ∷ later)) (file_of e)
      ≡ some (shown e (of_file (file_of e) later))
unfolding apply_file file_by
file_shown before e later m opens fresh =
    let u = foldl apply_file m before in
    rw (foldl-append apply_file m before (e ∷ later)) (
      open_file (file_of e) later (apply_file u e) (format_path e.path e.path_len) 0 0 false fresh (
        rw opens
          (rw (get-insert u (file_of e) (file_of e) (opened_file e), is_itself (file_of e)) refl))
      ∙ ground arith)
