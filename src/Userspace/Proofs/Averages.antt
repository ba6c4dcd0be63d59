-- ===== src/Userspace/Proofs/Averages.antt =====
-- Bounds on the statistics of the calls (peekbeam/src/main.rs, `drain_syscalls` and `avg_ns`).
use native.Mathlib.Nat.{div-le_of_le-mul}
use peekbeam.Prelude.{
  ℕ, suc, ◌+◌, ◌-◌, ◌*◌, ◌%◌, ◌^◌, ◌≤◌, ◌<◌, ◌≡◌, some, List, [], ◌∷◌, foldl, arith, ◌==◌, nat_eq,
  pair_eq, Option-cases, Bool-cases, inl, inr,
}
use peekbeam.Data.HashMap
use peekbeam.Data.HashMap.{HashMap, or_default, get-insert, get-remove, get-entry, get-new}
use peekbeam.Data.Lists.{All, length}
use peekbeam.Common.{EventKind, enter, exit, SyscallEvent}
use peekbeam.Userspace.Stats.{add64, SyscallTable, SyscallStats, no_syscalls, avg_ns}
use peekbeam.Userspace.Apply.{apply_syscall, end_call, syscall_by, count_call}

abbrev pub stats_of : SyscallTable → ℕ → SyscallStats
stats_of t nr = or_default no_syscalls (HashMap.get t.stats nr)

-- After at most `n` calls, with the stamps between `a` and `b`.
record Bounded (a b n : ℕ) (t : SyscallTable) : Type 0 where
  counts : (nr : ℕ) → (stats_of t nr).count ≤ n
  totals : (nr : ℕ) → (stats_of t nr).total_ns ≤ (b - a) * (stats_of t nr).count
  starts : (k : ℕ × ℕ) (start : ℕ) → HashMap.get t.pending k ≡ some start → a ≤ start

abbrev pub StampedIn : ℕ → ℕ → List SyscallEvent → Type 0
StampedIn a b = All (λ e. (a ≤ e.timestamp_ns) × (e.timestamp_ns ≤ b))

one_more : (d c t dur : ℕ) → t ≤ d * c → dur ≤ d → t + dur ≤ d * (c + 1)
one_more d c t dur h k = omega (arith, h, k)

-- The statistics of a syscall after one more call.
counted :
    (d n dur : ℕ) (s : SyscallStats)
    → suc n < 2 ^ 64
    → dur ≤ d
    → s.count ≤ n
    → s.total_ns ≤ d * s.count
    → ((count_call dur s).count ≤ suc n)
      × ((count_call dur s).total_ns ≤ d * (count_call dur s).count)
unfolding count_call add64
counted d n dur s small near few sum =
    let more = one_more d s.count s.total_ns dur sum near in
    let whole : (s.count + 1) % 2 ^ 64 ≡ s.count + 1 = omega (arith, small, few) in
    (omega (arith, whole, few), rw whole (omega (arith, more)))

ended :
    (a b n : ℕ) (e : SyscallEvent) (start : ℕ) (t : SyscallTable)
    → suc n < 2 ^ 64
    → e.timestamp_ns ≤ b
    → a ≤ start
    → Bounded a b n t
    → Bounded a b (suc n) (end_call e (some start) t)
unfolding end_call
ended a b n e start t small late early p =
    let after = λ (nr : ℕ).
      get-entry t.stats e.syscall_nr nr no_syscalls (count_call (e.timestamp_ns - start)) in
    let one =
      counted (b - a) n (e.timestamp_ns - start) (stats_of t e.syscall_nr) small
        (omega (arith, late, early)) (p.counts e.syscall_nr) (p.totals e.syscall_nr) in
    record {
      counts = λ nr. rw (after nr) (ground (arith, one.0, p.counts nr));
      totals = λ nr. elim (Bool-cases (e.syscall_nr == nr)) [
        | inl here ↦ rw (after nr, here) one.1
        | inr other ↦ rw (after nr, other) (p.totals nr)
      ];
      starts =
          λ k v. rw (get-remove t.pending (e.pid, e.syscall_nr) k) (ground (arith, p.starts k v));
    }

weaken : (a b n : ℕ) (t : SyscallTable) → Bounded a b n t → Bounded a b (suc n) t
weaken a b n t p = record {
  counts = λ nr. omega (arith, p.counts nr);
  totals = p.totals;
  starts = p.starts;
}

step-Bounded :
    (a b n : ℕ) (kind : EventKind) (e : SyscallEvent) (t : SyscallTable)
    → suc n < 2 ^ 64
    → (a ≤ e.timestamp_ns) × (e.timestamp_ns ≤ b)
    → Bounded a b n t
    → Bounded a b (suc n) (syscall_by kind e t)
unfolding syscall_by end_call
step-Bounded a b n enter e t small stamp p = record {
  counts = λ nr. omega (arith, p.counts nr);
  totals = p.totals;
  starts = λ k v.
      rw (get-insert t.pending (e.pid, e.syscall_nr) k e.timestamp_ns)
        (ground (arith, p.starts k v, stamp.0));
}
step-Bounded a b n exit e t small stamp p =
    elim (Option-cases (HashMap.get t.pending (e.pid, e.syscall_nr))) [
      | inl none_there ↦ rw none_there (weaken a b n t p)
      | inr (start, there) ↦
          rw there (ended a b n e start t small stamp.1 (p.starts _ start there) p)
    ]

run-Bounded :
    (a b n : ℕ) (events : List SyscallEvent) (t : SyscallTable)
    → n + length events < 2 ^ 64
    → StampedIn a b events
    → Bounded a b n t
    → Bounded a b (n + length events) (foldl apply_syscall t events)
unfolding apply_syscall
run-Bounded a b n [] t small stamps p = let same : n ≡ n + 0 = omega arith in rw (← same) p
run-Bounded a b n (e ∷ es) t small stamps p =
    let same : n + suc (length es) ≡ suc n + length es = omega arith in
    rw same (
      run-Bounded a b (suc n) es (apply_syscall t e) (omega (arith, small)) stamps.1
        (step-Bounded a b n e.kind e t (omega (arith, small)) stamps.0 p))

average_le : (d : ℕ) (s : SyscallStats) → s.total_ns ≤ d * s.count → avg_ns s ≤ d
unfolding avg_ns
average_le d s h =
    let swapped : s.total_ns ≤ s.count * d = omega (arith, h) in
    ground (arith, div-le_of_le-mul s.count {m = s.total_ns} {n = d} swapped)

abbrev pub empty_table : SyscallTable
empty_table = record { pending = HashMap.new; stats = HashMap.new }

-- From empty tables, after fewer than 2^64 events whose stamps lie between `a` and `b`, no syscall
-- counts more calls than there were events, and the average time that is shown for it is at most
-- the span `b - a`.
pub average_bounded :
    (a b nr : ℕ) (events : List SyscallEvent)
    → length events < 2 ^ 64
    → StampedIn a b events
    → ((stats_of (foldl apply_syscall empty_table events) nr).count ≤ length events)
      × (avg_ns (stats_of (foldl apply_syscall empty_table events) nr) ≤ b - a)
average_bounded a b nr events few stamps =
    let start : Bounded a b 0 empty_table = record {
      counts = λ nr. rw (get-new {V = SyscallStats} nr) (omega arith);
      totals = λ nr. rw (get-new {V = SyscallStats} nr) (omega arith);
      starts = λ k v e. absurd (ground (arith, get-new {V = ℕ} k, e));
    } in
    let p = run-Bounded a b 0 events empty_table (omega (arith, few)) stamps start in
    let most = p.counts nr in
    (
      omega (arith, most),
      average_le (b - a) (stats_of (foldl apply_syscall empty_table events) nr) (p.totals nr),
    )
