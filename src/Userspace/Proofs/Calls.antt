-- ===== src/Userspace/Proofs/Calls.antt =====
-- The latencies of peekbeam/src/main.rs, `drain_syscalls`.
use peekbeam.Prelude.{
  ℕ, ◌-◌, ◌+◌, ◌%◌, ◌^◌, ◌≡◌, refl, ◌≢◌, ap, ◌∙◌, Option, none, some, List, [], ◌∷◌, ◌++◌, foldl,
  arith, ◌==◌, nat_eq, pair_eq, if◌then◌else◌,
}
use peekbeam.Data.HashMap
use peekbeam.Data.HashMap.{HashMap, or_default, get-insert, get-remove, get-entry, get-new}
use peekbeam.Data.Lists.{All, foldl-append}
use peekbeam.Common.{EventKind, enter, exit, SyscallEvent}
use peekbeam.Userspace.Stats.{add64, SyscallTable, no_syscalls}
use peekbeam.Userspace.Apply.{apply_syscall, end_call, syscall_by, count_call}

-- The key of the pending enter.
abbrev pub call_of : SyscallEvent → ℕ × ℕ
call_of e = (e.pid, e.syscall_nr)

-- Two tables that agree on all statistics, and on what is pending but for the key `k`.
record AgreeBut (k : ℕ × ℕ) (t u : SyscallTable) : Type 0 where
  stats : (j : ℕ) → HashMap.get t.stats j ≡ HashMap.get u.stats j
  pending : (j : ℕ × ℕ) → j ≢ k → HashMap.get t.pending j ≡ HashMap.get u.pending j

end_call-AgreeBut :
    (k : ℕ × ℕ) (e : SyscallEvent) (o : Option ℕ) (t u : SyscallTable)
    → AgreeBut k t u
    → AgreeBut k (end_call e o t) (end_call e o u)
unfolding end_call
end_call-AgreeBut k e none t u a = a
end_call-AgreeBut k e (some start) t u a = record {
  stats = λ j.
      rw
        (
          get-entry t.stats e.syscall_nr j no_syscalls (count_call (e.timestamp_ns - start)),
          get-entry u.stats e.syscall_nr j no_syscalls (count_call (e.timestamp_ns - start)),
          a.stats e.syscall_nr,
          a.stats j,
        )
        refl;
  pending = λ j other.
      rw (get-remove t.pending (call_of e) j, get-remove u.pending (call_of e) j, a.pending j other)
        refl;
}

syscall_by-AgreeBut :
    (k : ℕ × ℕ) (kind : EventKind) (e : SyscallEvent) (t u : SyscallTable)
    → call_of e ≢ k
    → AgreeBut k t u
    → AgreeBut k (syscall_by kind e t) (syscall_by kind e u)
unfolding syscall_by
syscall_by-AgreeBut k enter e t u other a = record {
  stats = a.stats;
  pending = λ j apart.
      rw
        (
          get-insert t.pending (call_of e) j e.timestamp_ns,
          get-insert u.pending (call_of e) j e.timestamp_ns,
          a.pending j apart,
        )
        refl;
}
syscall_by-AgreeBut k exit e t u other a =
    rw (a.pending (call_of e) other)
      (end_call-AgreeBut k e (HashMap.get u.pending (call_of e)) t u a)

foldl-AgreeBut :
    (k : ℕ × ℕ) (mid : List SyscallEvent) (t u : SyscallTable)
    → All (λ e. call_of e ≢ k) mid
    → AgreeBut k t u
    → AgreeBut k (foldl apply_syscall t mid) (foldl apply_syscall u mid)
unfolding apply_syscall
foldl-AgreeBut k [] t u others a = a
foldl-AgreeBut k (e ∷ mid) t u others a =
    foldl-AgreeBut k mid (apply_syscall t e) (apply_syscall u e) others.1
      (syscall_by-AgreeBut k e.kind e t u others.0 a)

-- What is pending for a call stays while other calls go on.
end_call-pending :
    (k : ℕ × ℕ) (e : SyscallEvent) (o : Option ℕ) (t : SyscallTable)
    → call_of e ≢ k
    → HashMap.get (end_call e o t).pending k ≡ HashMap.get t.pending k
unfolding end_call
end_call-pending k e none t other = refl
end_call-pending k e (some start) t other =
    ground (arith, other, pair_eq.beq_iff (call_of e) k, get-remove t.pending (call_of e) k)

syscall_by-pending :
    (k : ℕ × ℕ) (kind : EventKind) (e : SyscallEvent) (t : SyscallTable)
    → call_of e ≢ k
    → HashMap.get (syscall_by kind e t).pending k ≡ HashMap.get t.pending k
unfolding syscall_by
syscall_by-pending k enter e t other =
    ground (
      arith,
      other,
      pair_eq.beq_iff (call_of e) k,
      get-insert t.pending (call_of e) k e.timestamp_ns,
    )
syscall_by-pending k exit e t other =
    end_call-pending k e (HashMap.get t.pending (call_of e)) t other

foldl-pending :
    (k : ℕ × ℕ) (mid : List SyscallEvent) (t : SyscallTable)
    → All (λ e. call_of e ≢ k) mid
    → HashMap.get (foldl apply_syscall t mid).pending k ≡ HashMap.get t.pending k
unfolding apply_syscall
foldl-pending k [] t others = refl
foldl-pending k (e ∷ mid) t others =
    foldl-pending k mid (apply_syscall t e) others.1 ∙ syscall_by-pending k e.kind e t others.0

-- An enter, then any events of other calls, then the exit of the same process and syscall: for each
-- syscall the statistics are those that the events in between alone leave, except that the call's
-- syscall has a count greater by 1 and a total greater by the time between the two stamps (0 if they
-- are out of order), both modulo 2^64 and both from 0 for a syscall without statistics.
pub call_counted :
    (t : SyscallTable) (e₁ e₂ : SyscallEvent) (mid : List SyscallEvent) (j : ℕ)
    → e₁.kind ≡ enter
    → e₂.kind ≡ exit
    → call_of e₂ ≡ call_of e₁
    → All (λ e. call_of e ≢ call_of e₁) mid
    → HashMap.get (foldl apply_syscall t (e₁ ∷ mid ++ e₂ ∷ [])).stats j ≡ (
        let before =
          or_default
            (record { count = 0; total_ns = 0 })
            (HashMap.get (foldl apply_syscall t mid).stats e₁.syscall_nr) in
        if e₁.syscall_nr == j
        then some (record {
          count = (before.count + 1) % 2 ^ 64;
          total_ns = (before.total_ns + (e₂.timestamp_ns - e₁.timestamp_ns)) % 2 ^ 64;
        })
        else HashMap.get (foldl apply_syscall t mid).stats j)
unfolding apply_syscall syscall_by end_call count_call add64
call_counted t e₁ e₂ mid j enters exits same others =
    let k = call_of e₁ in
    let started = apply_syscall t e₁ in
    let u = foldl apply_syscall started mid in
    let a = foldl-AgreeBut k mid started t others (record {
      stats = λ i. rw enters refl;
      pending = λ i apart.
          rw enters
            (ground (arith, apart, pair_eq.beq_iff k i, get-insert t.pending k i e₁.timestamp_ns));
    }) in
    let waiting : HashMap.get u.pending k ≡ some e₁.timestamp_ns =
      foldl-pending k mid started others
      ∙ rw enters (ground (arith, pair_eq.beq_iff k k, get-insert t.pending k k e₁.timestamp_ns)) in
    rw
      (
        foldl-append apply_syscall started mid (e₂ ∷ []),
        exits,
        same,
        waiting,
        ap (λ p. p.1) same,
        get-entry u.stats e₁.syscall_nr j no_syscalls
            (count_call (e₂.timestamp_ns - e₁.timestamp_ns)),
        a.stats e₁.syscall_nr,
        a.stats j,
      )
      refl
