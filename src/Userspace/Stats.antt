-- ===== src/Userspace/Stats.antt =====
-- peekbeam/src/main.rs: the aggregated statistics, and u64 arithmetic, which wraps around.
use peekbeam.Prelude.{
  ℕ, ◌+◌, ◌/◌, ◌%◌, ◌^◌, ◌≡◌, ◌↔◌, Bool, true, false, ◌&&◌, List, arith, nat_beq, list_beq,
  list_beq_iff, Eq, if◌then◌else◌,
}
use peekbeam.Data.Int.{ℤ}
use peekbeam.Data.Text.{text}
use peekbeam.Data.HashMap.{HashMap}

-- `a += b` on u64, as a release build computes it
unfoldable pub add64 : ℕ → ℕ → ℕ
add64 a b = (a + b) % 2 ^ 64

pub record SyscallStats : Type 0 where
  pub count : ℕ
  pub total_ns : ℕ

abbrev pub no_syscalls : SyscallStats
no_syscalls = record { count = 0; total_ns = 0 }

unfoldable pub avg_ns : SyscallStats → ℕ
avg_ns s = if nat_beq s.count 0 then 0 else s.total_ns / s.count

pub record ConnectionKey : Type 0 where
  pub family : ℕ
  pub sport : ℕ
  pub dport : ℕ
  pub saddr : List ℕ
  pub daddr : List ℕ

-- `derive(PartialEq)`
unfoldable pub key_beq : ConnectionKey → ConnectionKey → Bool
unfolding list_beq
key_beq a b =
    nat_beq a.family b.family
    && (nat_beq a.sport b.sport
        && (nat_beq a.dport b.dport && (list_beq a.saddr b.saddr && list_beq a.daddr b.daddr)))

pub key_beq_iff : (a b : ConnectionKey) → (key_beq a b ≡ true) ↔ (a ≡ b)
unfolding key_beq
key_beq_iff a b = ground (arith, list_beq_iff a.saddr b.saddr, list_beq_iff a.daddr b.daddr)

instance abbrev pub key_eq : Eq ConnectionKey
key_eq = record { beq = key_beq; beq_iff = key_beq_iff }

pub record ConnectionStats : Type 0 where
  pub state : ℕ
  pub retransmits : ℕ

abbrev pub no_connection : ConnectionStats
no_connection = record { state = 0; retransmits = 0 }

pub record FileStats : Type 0 where
  pub path : List ℕ
  pub bytes_read : ℕ
  pub bytes_written : ℕ
  pub closed : Bool

unfoldable pub unknown_file : FileStats
unknown_file = record {
  path = text "<unknown, opened before trace started>";
  bytes_read = 0;
  bytes_written = 0;
  closed = false;
}

pub record MemEventStats : Type 0 where
  pub alloc_count : ℕ
  pub alloc_bytes : ℕ
  pub free_count : ℕ

-- What the four loops share with the views: `pending` and `stats`, the connections, the files and
-- the memory counters.
pub record SyscallTable : Type 0 where
  pub pending : HashMap (ℕ × ℕ) ℕ
  pub stats : HashMap ℕ SyscallStats

abbrev pub ConnMap : Type 0
ConnMap = HashMap ConnectionKey ConnectionStats

abbrev pub FilesMap : Type 0
FilesMap = HashMap (ℕ × ℤ) FileStats

pub record Tables : Type 0 where
  pub syscalls : SyscallTable
  pub connections : ConnMap
  pub files : FilesMap
  pub mem_events : MemEventStats
