-- ===== src/Ebpf/Proofs/Pairing.antt =====
-- The two halves of `openat`/`openat2` (peekbeam-ebpf/src/main.rs, `stash_open_path` and
-- `emit_open_result`).
use peekbeam.Prelude.{
  ℕ, ◌%◌, ◌^◌, ◌≡◌, refl, ◌∙◌, true, none, some, List, [], ◌∷◌, ◌++◌, arith, inl, inr, Bool-cases,
  if◌then◌else◌, nat_eq,
}
use mathlib.Core.List.{append-nil}
use peekbeam.Data.Int.{ℤ, pos, is_neg, as_i32}
use peekbeam.Data.Lists.{All, replicate}
use peekbeam.Data.Exec.{ok, ◌>>=◌}
use peekbeam.Common.{enter, exit, FileEvent, opened}
use peekbeam.Ebpf.Host.{Host, PendingOpen, TracePointContext}
use peekbeam.Ebpf.State.{Maps, matches_target, remove_open}
use peekbeam.Ebpf.Files.{is_open, stash_open_path, report_open, emit_open_result, file_action}
use peekbeam.Ebpf.Programs.{Hook, sys_enter, sys_exit, fire, run}
use peekbeam.Ebpf.Proofs.Room.{Accepts, Inserts, output_file_room, insert_open_room}
use peekbeam.Ebpf.Proofs.Emit.{syscall_event, emit_room}
use peekbeam.Ebpf.Proofs.Frames.{
  IsOther, SameFilters-trans, run-SameFilters, fire-SameFilters, matches-SameFilters, run-PendingIs,
}

-- The number of `openat` or of `openat2`, on aarch64.
pub data OpenCall (nr : ℤ) : Type 0 where
  openat : nr ≡ pos 56 → OpenCall nr
  openat2 : nr ≡ pos 437 → OpenCall nr

OpenCall-is_open : {nr : ℤ} → OpenCall nr → is_open nr ≡ true
unfolding is_open
OpenCall-is_open (openat e) = rw e refl
OpenCall-is_open (openat2 e) = rw e refl

-- The kernel's record shows an enter of `openat`/`openat2`, and its path can be read.
pub record EntersOpen (ctx : TracePointContext) (path : List ℕ) (len : ℕ) : Type 0 where
  pub nr : ℤ
  pub ptr : ℕ
  pub nr_read : ctx.read_i64 8 ≡ ok nr
  pub opens : OpenCall nr
  pub ptr_read : ctx.read_u64 24 ≡ ok ptr
  pub copied : ctx.read_user_str ptr (replicate 64 0) ≡ ok (path, len)

-- The exit of one, with its result.
pub record ExitsOpen (ctx : TracePointContext) (ret : ℤ) : Type 0 where
  pub nr : ℤ
  pub nr_read : ctx.read_i64 8 ≡ ok nr
  pub opens : OpenCall nr
  pub ret_read : ctx.read_i64 16 ≡ ok ret

module _ (h : Host) where
  unfoldable pub open_event : TracePointContext → ℤ → List ℕ → ℕ → FileEvent
  open_event ctx ret path len = record {
    pid = ctx.tgid;
    kind = opened;
    fd = as_i32 ret;
    bytes = pos 0;
    path_len = len;
    path = path;
    timestamp_ns = ctx.ktime_ns;
  }

  -- What is to be reported of a call with this path and result: nothing if it failed.
  unfoldable pub opening : TracePointContext → ℤ → List ℕ → ℕ → List FileEvent
  opening ctx ret path len = if is_neg ret then [] else open_event ctx ret path len ∷ []

  -- After the enter the path is pending, and no file event is written.
  enter_open :
      (ctx : TracePointContext) (nr : ℤ) (ptr : ℕ) (path : List ℕ) (len : ℕ) (s : Maps h)
      → Inserts h.open_map s.pending_open_path ctx.tgid
          (record { path = path; path_len = len % 2 ^ 16 })
      → is_open nr ≡ true
      → ctx.read_u64 24 ≡ ok ptr
      → ctx.read_user_str ptr (replicate 64 0) ≡ ok (path, len)
      → (h.open_map.get (file_action h ctx enter ctx.tgid nr s).1.pending_open_path ctx.tgid
          ≡ some (record { path = path; path_len = len % 2 ^ 16 }))
        × ((file_action h ctx enter ctx.tgid nr s).1.file_events ≡ s.file_events)
  unfolding file_action stash_open_path ◌>>=◌
  enter_open ctx nr ptr path len s room o p c =
      let pending : PendingOpen = record { path = path; path_len = len % 2 ^ 16 } in
      let (m, e, done) = insert_open_room h s ctx.tgid pending room in
      (
        rw (o, p, c, done)
            (ground
              (arith, h.open_map.get-insert s.pending_open_path m ctx.tgid ctx.tgid pending e)),
        rw (o, p, c, done),
      )

  -- At the exit a pending path is reported if the call succeeded, and is pending no more.
  exit_open :
      (ctx : TracePointContext) (nr ret : ℤ) (path : List ℕ) (len : ℕ) (s : Maps h)
      → All (Accepts h.file_ring s.file_events) (opening ctx ret path len)
      → is_open nr ≡ true
      → ctx.read_i64 16 ≡ ok ret
      → h.open_map.get s.pending_open_path ctx.tgid ≡ some (record { path = path; path_len = len })
      → (h.file_ring.records (file_action h ctx exit ctx.tgid nr s).1.file_events
          ≡ h.file_ring.records s.file_events ++ opening ctx ret path len)
        × (h.open_map.get (file_action h ctx exit ctx.tgid nr s).1.pending_open_path ctx.tgid
            ≡ none)
  unfolding file_action emit_open_result remove_open report_open opening open_event ◌>>=◌
  exit_open ctx nr ret path len s room o e p = elim (Bool-cases (is_neg ret)) [
    | inl failed ↦ (rw (o, p, e, failed, append-nil), rw (o, p, e, failed) gone)
    | inr fine ↦
        let (r, grown, done) =
          output_file_room h
            (record s { pending_open_path = h.open_map.remove s.pending_open_path ctx.tgid })
            (open_event ctx ret path len) (rw fine at room).0 in
        (rw (o, p, e, fine, done) grown, rw (o, p, e, fine, done) gone)
  ]
    where
      gone : h.open_map.get (h.open_map.remove s.pending_open_path ctx.tgid) ctx.tgid ≡ none
      gone = ground (arith, h.open_map.get-remove s.pending_open_path ctx.tgid ctx.tgid)

  -- The state after the enter, and after firings in between.
  abbrev pub between : TracePointContext → List (Hook × TracePointContext) → Maps h → Maps h
  between c₁ mid s = run h mid (fire h sys_enter c₁ s).1

  -- Nothing is full where the programs write: the ring of syscall events at the enter and at the exit,
  -- the map of pending paths at the enter, and the ring of file events at the exit, if there is an
  -- event to write.
  pub record RoomToOpen (c₁ c₂ : TracePointContext) (mid : List (Hook × TracePointContext))
      (s : Maps h) {path : List ℕ} {len : ℕ} {ret : ℤ} (en : EntersOpen c₁ path len)
      (ex : ExitsOpen c₂ ret) : Type 0 where
    pub entered : Accepts h.syscall_ring s.events (syscall_event h c₁ enter en.nr)
    pub stashed :
        Inserts h.open_map s.pending_open_path c₁.tgid
          (record { path = path; path_len = len % 2 ^ 16 })
    pub left : Accepts h.syscall_ring (between c₁ mid s).events (syscall_event h c₂ exit ex.nr)
    pub written :
        All
          (Accepts h.file_ring (between c₁ mid s).file_events)
          (opening c₂ ret path (len % 2 ^ 16))

  module _ (c₁ c₂ : TracePointContext) (mid : List (Hook × TracePointContext)) (s : Maps h)
      (same : c₂.tgid ≡ c₁.tgid) (hit₁ : matches_target h c₁ c₁.tgid s ≡ true)
      (hit₂ : matches_target h c₂ c₂.tgid s ≡ true) (others : All (IsOther c₁.tgid) mid) where
    -- The enter: no file event, and the path is pending up to the exit.
    entered_open :
        {path : List ℕ} {len : ℕ} (en : EntersOpen c₁ path len)
        → Accepts h.syscall_ring s.events (syscall_event h c₁ enter en.nr)
        → Inserts h.open_map s.pending_open_path c₁.tgid
            (record { path = path; path_len = len % 2 ^ 16 })
        → (h.open_map.get (between c₁ mid s).pending_open_path c₂.tgid
            ≡ some (record { path = path; path_len = len % 2 ^ 16 }))
          × ((fire h sys_enter c₁ s).1.file_events ≡ s.file_events)
    entered_open {path} {len} en rooms roomo =
        let (r, _, stepped) = emit_room h c₁ enter en.nr s rooms hit₁ en.nr_read in
        let (stashed, quiet) =
          enter_open c₁ en.nr en.ptr path len (record s { events = r }) roomo
            (OpenCall-is_open en.opens) en.ptr_read en.copied in
        let after =
          run-PendingIs h c₁.tgid (some (record { path = path; path_len = len % 2 ^ 16 })) _ mid
            (fire h sys_enter c₁ s).1 others (record { path = rw stepped stashed; fd = refl }) in
        (rw same after.path, rw stepped quiet)

    -- When a task of the target enters `openat` (56) or `openat2` (437) and a task of the same
    -- process leaves one, only other processes fire in between, and the rings and the map of
    -- pending paths have room where these two firings write: the enter writes no file event, and
    -- the exit writes exactly one open event if the call succeeded, with the path read at the enter
    -- and the descriptor returned at the exit, and none if it failed; either way no path is pending
    -- for the process any more.
    pub open_recorded :
        {path : List ℕ} {len : ℕ} {ret : ℤ} (en : EntersOpen c₁ path len) (ex : ExitsOpen c₂ ret)
        → RoomToOpen c₁ c₂ mid s en ex
        → ((fire h sys_enter c₁ s).1.file_events ≡ s.file_events)
          × (h.file_ring.records (fire h sys_exit c₂ (between c₁ mid s)).1.file_events
              ≡ h.file_ring.records (between c₁ mid s).file_events
                ++ (if is_neg ret then [] else open_event c₂ ret path (len % 2 ^ 16) ∷ []))
          × (h.open_map.get (fire h sys_exit c₂ (between c₁ mid s)).1.pending_open_path c₂.tgid
              ≡ none)
    unfolding opening
    open_recorded {path} {len} {ret} en ex room =
        let u = between c₁ mid s in
        let (pending, quiet) = entered_open en room.entered room.stashed in
        let filters =
          SameFilters-trans h (fire-SameFilters h sys_enter c₁ s)
            (run-SameFilters h mid (fire h sys_enter c₁ s).1) in
        let (r, _, stepped) =
          emit_room h c₂ exit ex.nr u room.left
            (matches-SameFilters h s u c₂ c₂.tgid filters ∙ hit₂) ex.nr_read in
        let (written, none_left) =
          exit_open c₂ ex.nr ret path (len % 2 ^ 16) (record u { events = r }) room.written
            (OpenCall-is_open ex.opens) ex.ret_read pending in
        (quiet, rw stepped written, rw stepped none_left)
