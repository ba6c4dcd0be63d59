-- ===== src/Ebpf/Files.antt =====
-- peekbeam-ebpf/src/main.rs, `handle_file_syscall` and what it calls: file events built from the
-- enter and the exit of a few syscalls.
use peekbeam.Prelude.{ℕ, ◌%◌, ◌^◌, Bool, ◌||◌, Option, none, some, List, if◌then◌else◌}
use peekbeam.Data.Int.{ℤ, pos, is_neg, as_i32, int_beq}
use peekbeam.Data.Lists.{replicate}
use peekbeam.Data.Exec.{◌>>=◌, ◌>>◌, pure, lift, gets, ignore}
use peekbeam.Common.{
  EventKind, enter, exit, FileEventKind, opened, close, read, write, file_path_max,
}
use peekbeam.Ebpf.Host.{Host, PendingOpen, TracePointContext}
use peekbeam.Ebpf.State.{Prog, insert_open, remove_open, insert_fd, remove_fd, output_file}

-- aarch64 syscall numbers
abbrev pub sys_openat : ℤ
sys_openat = pos 56

abbrev pub sys_close : ℤ
sys_close = pos 57

abbrev pub sys_read : ℤ
sys_read = pos 63

abbrev pub sys_write : ℤ
sys_write = pos 64

abbrev pub sys_pread64 : ℤ
sys_pread64 = pos 67

abbrev pub sys_pwrite64 : ℤ
sys_pwrite64 = pos 68

abbrev pub sys_openat2 : ℤ
sys_openat2 = pos 437

-- The patterns of the `match` on the syscall number.
unfoldable pub is_open : ℤ → Bool
is_open nr = int_beq nr sys_openat || int_beq nr sys_openat2

unfoldable pub is_read : ℤ → Bool
is_read nr = int_beq nr sys_read || int_beq nr sys_pread64

unfoldable pub is_write : ℤ → Bool
is_write nr = int_beq nr sys_write || int_beq nr sys_pwrite64

unfoldable pub is_close : ℤ → Bool
is_close nr = int_beq nr sys_close

abbrev pub zeroed_path : List ℕ
zeroed_path = replicate file_path_max 0

module _ (h : Host) where
  unfoldable pub stash_open_path : TracePointContext → ℕ → Prog h (Unit {0})
  stash_open_path ctx pid = do
    filename_ptr ← lift (ctx.read_u64 24)
    copied ← lift (ctx.read_user_str filename_ptr zeroed_path)
    -- `.len() as u16`
    insert_open h pid (record { path = copied.0; path_len = copied.1 % 2 ^ 16 })

  -- the rest of `emit_open_result`, once the pending path is taken
  unfoldable pub report_open : TracePointContext → ℕ → Option PendingOpen → Prog h (Unit {0})
  report_open ctx pid none = pure tt
  report_open ctx pid (some pending) = do
    ret ← lift (ctx.read_i64 16)
    if is_neg ret
        then pure tt
        else output_file h (record {
          pid = pid;
          kind = opened;
          fd = as_i32 ret;
          bytes = pos 0;
          path_len = pending.path_len;
          path = pending.path;
          timestamp_ns = ctx.ktime_ns;
        })

  unfoldable pub emit_open_result : TracePointContext → ℕ → Prog h (Unit {0})
  emit_open_result ctx pid = do
    pending ← gets (λ s. h.open_map.get s.pending_open_path pid)
    remove_open h pid
    report_open ctx pid pending

  unfoldable pub stash_fd : TracePointContext → ℕ → Prog h (Unit {0})
  stash_fd ctx pid = do fd ← lift (ctx.read_i64 16); insert_fd h pid (as_i32 fd)

  unfoldable pub take_read_write :
      TracePointContext → ℕ → FileEventKind → Option ℤ → Prog h (Unit {0})
  take_read_write ctx pid kind none = pure tt
  take_read_write ctx pid kind (some fd) = do
    remove_fd h pid
    bytes ← lift (ctx.read_i64 16)
    if is_neg bytes
        then pure tt
        else output_file h (record {
          pid = pid;
          kind = kind;
          fd = fd;
          bytes = bytes;
          path_len = 0;
          path = zeroed_path;
          timestamp_ns = ctx.ktime_ns;
        })

  unfoldable pub emit_read_write : TracePointContext → ℕ → FileEventKind → Prog h (Unit {0})
  emit_read_write ctx pid kind = do
    pending ← gets (λ s. h.fd_map.get s.pending_fd pid)
    take_read_write ctx pid kind pending

  unfoldable pub take_close : TracePointContext → ℕ → Option ℤ → Prog h (Unit {0})
  take_close ctx pid none = pure tt
  take_close ctx pid (some fd) = do
    remove_fd h pid
    ret ← lift (ctx.read_i64 16)
    if int_beq ret (pos 0)
        then output_file h (record {
          pid = pid;
          kind = close;
          fd = fd;
          bytes = pos 0;
          path_len = 0;
          path = zeroed_path;
          timestamp_ns = ctx.ktime_ns;
        })
        else pure tt

  unfoldable pub emit_close : TracePointContext → ℕ → Prog h (Unit {0})
  emit_close ctx pid = do
    pending ← gets (λ s. h.fd_map.get s.pending_fd pid)
    take_close ctx pid pending

  -- the `match` of `handle_file_syscall`
  unfoldable pub file_action : TracePointContext → EventKind → ℕ → ℤ → Prog h (Unit {0})
  file_action ctx enter pid nr =
      if is_open nr
      then stash_open_path ctx pid
      else if is_read nr || is_write nr || is_close nr
      then stash_fd ctx pid
      else pure tt
  file_action ctx exit pid nr =
      if is_open nr
      then emit_open_result ctx pid
      else if is_read nr
      then emit_read_write ctx pid read
      else if is_write nr
      then emit_read_write ctx pid write
      else if is_close nr
      then emit_close ctx pid
      else pure tt

  unfoldable pub handle_file_syscall : TracePointContext → EventKind → ℕ → ℤ → Prog h (Unit {0})
  handle_file_syscall ctx kind pid nr = ignore (file_action ctx kind pid nr)
