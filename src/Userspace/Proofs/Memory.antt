-- ===== src/Userspace/Proofs/Memory.antt =====
-- The counters of peekbeam/src/main.rs, `drain_mem_events`.
use peekbeam.Prelude.{
  ℕ, suc, ◌+◌, ◌%◌, ◌^◌, ◌<◌, ◌≡◌, refl, List, [], ◌∷◌, foldl, arith, inl, inr, ◌⊎◌,
}
use peekbeam.Common.{MemEventKind, alloc, free, MemEvent}
use peekbeam.Userspace.Stats.{add64, MemEventStats}
use peekbeam.Userspace.Apply.{apply_mem, mem_by}

-- The allocations, their bytes and the frees of a list of events.
abbrev pub allocs : List MemEvent → ℕ
allocs [] = 0
allocs (e ∷ es) = elim e.kind [ alloc ↦ suc (allocs es) | free ↦ allocs es ]

abbrev pub bytes_of : List MemEvent → ℕ
bytes_of [] = 0
bytes_of (e ∷ es) = elim e.kind [ alloc ↦ e.bytes + bytes_of es | free ↦ bytes_of es ]

abbrev pub frees : List MemEvent → ℕ
frees [] = 0
frees (e ∷ es) = elim e.kind [ alloc ↦ frees es | free ↦ suc (frees es) ]

pub record CountersInRange (s : MemEventStats) : Type 0 where
  pub alloc_count : s.alloc_count < 2 ^ 64
  pub alloc_bytes : s.alloc_bytes < 2 ^ 64
  pub free_count : s.free_count < 2 ^ 64

abbrev pub totals : MemEventStats → List MemEvent → MemEventStats
totals s events = record {
  alloc_count = (s.alloc_count + allocs events) % 2 ^ 64;
  alloc_bytes = (s.alloc_bytes + bytes_of events) % 2 ^ 64;
  free_count = (s.free_count + frees events) % 2 ^ 64;
}

kind_cases : (k : MemEventKind) → (k ≡ alloc) ⊎ (k ≡ free)
kind_cases alloc = inl refl
kind_cases free = inr refl

mem_totals_from :
    (events : List MemEvent) (s : MemEventStats) (a b c : ℕ)
    → s.alloc_count ≡ a % 2 ^ 64
    → s.alloc_bytes ≡ b % 2 ^ 64
    → s.free_count ≡ c % 2 ^ 64
    → foldl apply_mem s events ≡ record {
      alloc_count = (a + allocs events) % 2 ^ 64;
      alloc_bytes = (b + bytes_of events) % 2 ^ 64;
      free_count = (c + frees events) % 2 ^ 64;
    }
unfolding apply_mem mem_by add64
mem_totals_from [] s a b c p q r = ground (arith, p, q, r)
mem_totals_from (e ∷ es) s a b c p q r = elim (kind_cases e.kind) [
  | inl k ↦
      rw
        (
          k,
          mem_totals_from es (mem_by alloc e s) (a + 1) (b + e.bytes) c (omega (arith, p))
              (omega (arith, q)) r,
        )
        (ground arith)
  | inr k ↦
      rw (k, mem_totals_from es (mem_by free e s) a b (c + 1) p q (omega (arith, r))) (ground arith)
]

-- Each event is counted once and under its own kind: after any events each counter is, modulo 2^64,
-- its value before plus the number of allocations, the sum of their bytes, or the number of frees
-- among the events, if the counters fitted 64 bits before.
pub mem_totals :
    (events : List MemEvent) (s : MemEventStats)
    → CountersInRange s
    → foldl apply_mem s events ≡ totals s events
mem_totals events s r =
    mem_totals_from events s s.alloc_count s.alloc_bytes s.free_count (omega (arith, r.alloc_count))
      (omega (arith, r.alloc_bytes)) (omega (arith, r.free_count))
