-- ===== src/Ebpf/Proofs/FdCalls.antt =====
-- The calls on a descriptor that peekbeam-ebpf/src/main.rs, `handle_file_syscall`, tells apart, their
-- enters and exits, and what is to be reported of them.
use peekbeam.Prelude.{
  ◌≡◌, refl, true, false, List, [], ◌∷◌, arith, inl, inr, ◌⊎◌, if◌then◌else◌, nat_eq,
}
use peekbeam.Data.Int.{ℤ, pos, is_neg, int_beq}
use peekbeam.Data.Lists.{replicate}
use peekbeam.Data.Exec.{ok}
use peekbeam.Common.{FileEvent, FileEventKind, close, read, write}
use peekbeam.Ebpf.Host.{TracePointContext}
use peekbeam.Ebpf.Files.{is_open, is_read, is_write, is_close}

-- A syscall on a descriptor, by its number on aarch64.
pub data FdCall (nr : ℤ) : Type 0 where
  reads : nr ≡ pos 63 → FdCall nr
  preads : nr ≡ pos 67 → FdCall nr
  writes : nr ≡ pos 64 → FdCall nr
  pwrites : nr ≡ pos 68 → FdCall nr
  closes : nr ≡ pos 57 → FdCall nr

pub read_numbers : (nr : ℤ) → (nr ≡ pos 63) ⊎ (nr ≡ pos 67) → is_read nr ≡ true
unfolding is_read
read_numbers nr (inl e) = rw e refl
read_numbers nr (inr e) = rw e refl

pub write_numbers : (nr : ℤ) → (nr ≡ pos 64) ⊎ (nr ≡ pos 68) → is_write nr ≡ true
unfolding is_write
write_numbers nr (inl e) = rw e refl
write_numbers nr (inr e) = rw e refl

pub close_number : (nr : ℤ) → nr ≡ pos 57 → is_close nr ≡ true
unfolding is_close
close_number nr e = rw e refl

-- The tests in the order of the `match`, for each kind of call.
pub read_tests : (nr : ℤ) → is_read nr ≡ true → is_open nr ≡ false
unfolding is_open is_read
read_tests nr e = ground arith

pub write_tests : (nr : ℤ) → is_write nr ≡ true → (is_open nr ≡ false) × (is_read nr ≡ false)
unfolding is_open is_read is_write
write_tests nr e = ground arith

pub close_tests :
    (nr : ℤ)
    → is_close nr ≡ true
    → (is_open nr ≡ false) × (is_read nr ≡ false) × (is_write nr ≡ false)
unfolding is_open is_read is_write is_close
close_tests nr e = ground arith

-- The kernel's record shows an enter of a call on the descriptor `fd`.
pub record EntersFd (ctx : TracePointContext) (fd : ℤ) : Type 0 where
  pub nr : ℤ
  pub nr_read : ctx.read_i64 8 ≡ ok nr
  pub call : FdCall nr
  pub fd_read : ctx.read_i64 16 ≡ ok fd

-- The exit of the call `nr`, with its result.
pub record ExitsFd (ctx : TracePointContext) (nr ret : ℤ) : Type 0 where
  pub nr_read : ctx.read_i64 8 ≡ ok nr
  pub call : FdCall nr
  pub ret_read : ctx.read_i64 16 ≡ ok ret

abbrev pub fd_event : TracePointContext → FileEventKind → ℤ → ℤ → FileEvent
fd_event ctx kind fd bytes = record {
  pid = ctx.tgid;
  kind = kind;
  fd = fd;
  bytes = bytes;
  path_len = 0;
  path = replicate 64 0;
  timestamp_ns = ctx.ktime_ns;
}

-- What is to be reported of a call on `fd` that returned `ret`: the bytes of a read or a write that did
-- not fail, and a close that returned 0.
unfoldable pub reported : {nr : ℤ} → TracePointContext → FdCall nr → ℤ → ℤ → List FileEvent
reported ctx (reads _) fd ret = if is_neg ret then [] else fd_event ctx read fd ret ∷ []
reported ctx (preads _) fd ret = if is_neg ret then [] else fd_event ctx read fd ret ∷ []
reported ctx (writes _) fd ret = if is_neg ret then [] else fd_event ctx write fd ret ∷ []
reported ctx (pwrites _) fd ret = if is_neg ret then [] else fd_event ctx write fd ret ∷ []
reported ctx (closes _) fd ret =
    if int_beq ret (pos 0) then fd_event ctx close fd (pos 0) ∷ [] else []

pub enter_tests :
    (nr : ℤ)
    → FdCall nr
    → ((is_open nr ≡ false) × (is_read nr ≡ true))
      ⊎ ((is_open nr ≡ false) × (is_read nr ≡ false) × (is_write nr ≡ true))
      ⊎ ((is_open nr ≡ false) × (is_read nr ≡ false) × (is_write nr ≡ false) × (is_close nr ≡ true))
enter_tests nr (reads e) = inl (let r = read_numbers nr (inl e) in (read_tests nr r, r))
enter_tests nr (preads e) = inl (let r = read_numbers nr (inr e) in (read_tests nr r, r))
enter_tests nr (writes e) =
    let w = write_numbers nr (inl e) in let (a, b) = write_tests nr w in inr (inl (a, b, w))
enter_tests nr (pwrites e) =
    let w = write_numbers nr (inr e) in let (a, b) = write_tests nr w in inr (inl (a, b, w))
enter_tests nr (closes e) =
    let c = close_number nr e in let (a, b, d) = close_tests nr c in inr (inr (a, b, d, c))
