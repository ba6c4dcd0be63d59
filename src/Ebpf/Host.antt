-- ===== src/Ebpf/Host.antt =====
-- What the programs of peekbeam-ebpf/src/main.rs take from aya-ebpf and the kernel: hash maps of a
-- bounded size, ring buffers, and the context of a tracepoint.
use peekbeam.Prelude.{ℕ, ◌≡◌, Option, none, some, List, [], ◌∷◌, ◌++◌, ◌==◌, nat_eq, if◌then◌else◌}
use peekbeam.Data.Int.{ℤ}
use peekbeam.Data.Exec.{Result, ok}
use peekbeam.Common.{SyscallEvent, NetEvent, FileEvent, MemEvent}

-- `struct PendingOpen`
pub record PendingOpen : Type 0 where
  pub path : List ℕ
  pub path_len : ℕ

-- `aya_ebpf::maps::HashMap` with integer keys. `insert` may refuse (the map is full); a call that
-- succeeds stores the value and touches no other key.
pub record BpfHashMap (V : Type 0) : Type 1 where
  pub Map : Type 0
  pub get : Map → ℕ → Option V
  pub insert : Map → ℕ → V → Result Map
  pub remove : Map → ℕ → Map
  pub get-insert :
      (m m' : Map) (k j : ℕ) (v : V)
      → insert m k v ≡ ok m'
      → get m' j ≡ (if k == j then some v else get m j)
  pub get-remove : (m : Map) (k j : ℕ) → get (remove m k) j ≡ (if k == j then none else get m j)

-- `aya_ebpf::maps::RingBuf`: `output` may refuse (the buffer is full); a record that is accepted
-- stands behind those written before.
pub record RingBuf (A : Type 0) : Type 1 where
  pub Ring : Type 0
  pub records : Ring → List A
  pub output : Ring → A → Result Ring
  pub records-output : (r r' : Ring) (a : A) → output r a ≡ ok r' → records r' ≡ records r ++ a ∷ []

pub record Host : Type 1 where
  pub u8_map : BpfHashMap ℕ
  pub open_map : BpfHashMap PendingOpen
  pub fd_map : BpfHashMap ℤ
  pub syscall_ring : RingBuf SyscallEvent
  pub net_ring : RingBuf NetEvent
  pub file_ring : RingBuf FileEvent
  pub mem_ring : RingBuf MemEvent

-- One firing of a tracepoint: the task that it fires in (`tgid`, its cgroup), the clock, and the
-- reads of the tracepoint's record at an offset, one for each type that the programs read.
-- `read_bytes n off` reads `[u8; n]`. `read_user_str ptr buf` is `bpf_probe_read_user_str_bytes`:
-- the buffer after the copy, and the length of the string.
pub record TracePointContext : Type 0 where
  pub tgid : ℕ
  pub cgroup_id : ℕ
  pub ktime_ns : ℕ
  pub read_u64 : ℕ → Result ℕ
  pub read_i64 : ℕ → Result ℤ
  pub read_i32 : ℕ → Result ℤ
  pub read_u16 : ℕ → Result ℕ
  pub read_bytes : ℕ → ℕ → Result (List ℕ)
  pub read_user_str : ℕ → List ℕ → Result (List ℕ × ℕ)
