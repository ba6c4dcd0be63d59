-- ===== src/Userspace/Drain.antt =====
-- peekbeam/src/main.rs: the `while let Some(item) = ring_buf.next()` loops and `poll_events`. An
-- item is the bytes of a record. A record whose kind is no value of its type is undefined behaviour
-- of the source (`read_unaligned` of an enum): the loop has no result then.
use peekbeam.Prelude.{ℕ, Option, none, some, List, [], ◌∷◌, nat_beq, if◌then◌else◌}
use peekbeam.Data.Lists.{length}
use peekbeam.Common.Layout.{
  syscall_event_size, net_event_size, file_event_size, mem_event_size, decode_syscall, decode_net,
  decode_file, decode_mem,
}
use peekbeam.Userspace.Stats.{SyscallTable, ConnMap, FilesMap, MemEventStats, Tables}
use peekbeam.Userspace.Apply.{apply_syscall, apply_net, apply_file, apply_mem}

infixl 5 ◌>>=◌
abbrev pub ◌>>=◌ {ℓ κ} : {A : Type ℓ} {B : Type κ} → Option A → (A → Option B) → Option B
none >>= f = none
some a >>= f = f a

-- The loop that the four share: an item of another size is skipped.
module _ {E S : Type 0} (size : ℕ) (decode : List ℕ → Option E) (apply : S → E → S) where
  unfoldable pub drain_item : List ℕ → S → Option S
  drain_item item s =
      if nat_beq (length item) size then (do e ← decode item; some (apply s e)) else some s

  unfoldable pub drain : List (List ℕ) → S → Option S
  unfolding drain_item
  drain [] s = some s
  drain (item ∷ rest) s = do s' ← drain_item item s; drain rest s'

unfoldable pub drain_syscalls : List (List ℕ) → SyscallTable → Option SyscallTable
drain_syscalls = drain syscall_event_size decode_syscall apply_syscall

unfoldable pub drain_net_events : List (List ℕ) → ConnMap → Option ConnMap
drain_net_events = drain net_event_size decode_net apply_net

unfoldable pub drain_file_events : List (List ℕ) → FilesMap → Option FilesMap
drain_file_events = drain file_event_size decode_file apply_file

unfoldable pub drain_mem_events : List (List ℕ) → MemEventStats → Option MemEventStats
drain_mem_events = drain mem_event_size decode_mem apply_mem

-- What stands in the four ring buffers when they are polled.
pub record Rings : Type 0 where
  pub ring_buf : List (List ℕ)
  pub net_ring_buf : List (List ℕ)
  pub file_ring_buf : List (List ℕ)
  pub mem_ring_buf : List (List ℕ)

unfoldable pub poll_events : Rings → Tables → Option Tables
poll_events r t = do
  syscalls ← drain_syscalls r.ring_buf t.syscalls
  connections ← drain_net_events r.net_ring_buf t.connections
  files ← drain_file_events r.file_ring_buf t.files
  mem_events ← drain_mem_events r.mem_ring_buf t.mem_events
  some (record {
    syscalls = syscalls;
    connections = connections;
    files = files;
    mem_events = mem_events;
  })
