-- ===== src/Startup/Proofs.antt =====
-- The filter that `main` (peekbeam/src/main.rs) sets, and the tasks of the target.
pub mod Scope
use peekbeam.Prelude.{ℕ, ◌≡◌, Bool, none, arith, nat_beq, nat_eq, inl, inr}
use peekbeam.Data.Exec.{ok}
use peekbeam.Ebpf.Host.{Host, TracePointContext}
use peekbeam.Ebpf.State.{Maps, matches_target}
use peekbeam.Ebpf.Proofs.Writes.{Result-cases}
use peekbeam.Startup.{Target, process, container, pod, set_filter}

-- The task belongs to the target.
abbrev pub belongs : Target → TracePointContext → Bool
belongs (process pid) ctx = nat_beq pid ctx.tgid
belongs (container c) ctx = nat_beq c.cgroup_id ctx.cgroup_id
belongs (pod name inner) ctx = nat_beq inner.cgroup_id ctx.cgroup_id

module _ (h : Host) where
  by_cgroup :
      (id : ℕ) (m cgroups : h.u8_map.Map) (ctx : TracePointContext) (s : Maps h)
      → ((k : ℕ) → h.u8_map.get s.pid_filter k ≡ none)
      → ((k : ℕ) → h.u8_map.get cgroups k ≡ none)
      → h.u8_map.insert cgroups id 1 ≡ ok m
      → s.cgroup_filter ≡ m
      → matches_target h ctx ctx.tgid s ≡ nat_beq id ctx.cgroup_id
  unfolding matches_target
  by_cgroup id m cgroups ctx s np nc i e =
      rw (np ctx.tgid, e, h.u8_map.get-insert cgroups m id ctx.cgroup_id 1 i, nc ctx.cgroup_id)
        (ground arith)

  by_pid :
      (id : ℕ) (m pids : h.u8_map.Map) (ctx : TracePointContext) (s : Maps h)
      → ((k : ℕ) → h.u8_map.get pids k ≡ none)
      → ((k : ℕ) → h.u8_map.get s.cgroup_filter k ≡ none)
      → h.u8_map.insert pids id 1 ≡ ok m
      → s.pid_filter ≡ m
      → matches_target h ctx ctx.tgid s ≡ nat_beq id ctx.tgid
  unfolding matches_target
  by_pid id m pids ctx s np nc i e =
      rw (e, h.u8_map.get-insert pids m id ctx.tgid 1 i, np ctx.tgid, nc ctx.cgroup_id)
        (ground arith)

  -- When the filters were empty and the entry of the target is made, the programs' filter passes a
  -- task exactly if it belongs to the target: for a process its id is the target's, for a container
  -- or a pod its cgroup is the target's.
  pub set_filter-matches_target :
      (target : Target) (pids cgroups : h.u8_map.Map) (ctx : TracePointContext) (s : Maps h)
      → ((k : ℕ) → h.u8_map.get pids k ≡ none)
      → ((k : ℕ) → h.u8_map.get cgroups k ≡ none)
      → set_filter h target pids cgroups ≡ ok (s.pid_filter, s.cgroup_filter)
      → matches_target h ctx ctx.tgid s ≡ belongs target ctx
  unfolding set_filter
  set_filter-matches_target (process pid) pids cgroups ctx s np nc e =
      elim (Result-cases (h.u8_map.insert pids pid 1)) [
        | inl (m, i) ↦
            let p : s.pid_filter ≡ m = ground (arith, i, e) in
            let q : s.cgroup_filter ≡ cgroups = ground (arith, i, e) in
            by_pid pid m pids ctx s np (λ k. rw q (nc k)) i p
        | inr (x, i) ↦ absurd (ground (arith, i, e))
      ]
  set_filter-matches_target (container c) pids cgroups ctx s np nc e =
      elim (Result-cases (h.u8_map.insert cgroups c.cgroup_id 1)) [
        | inl (m, i) ↦
            let p : s.pid_filter ≡ pids = ground (arith, i, e) in
            let q : s.cgroup_filter ≡ m = ground (arith, i, e) in
            by_cgroup c.cgroup_id m cgroups ctx s (λ k. rw p (np k)) nc i q
        | inr (x, i) ↦ absurd (ground (arith, i, e))
      ]
  set_filter-matches_target (pod name inner) pids cgroups ctx s np nc e =
      elim (Result-cases (h.u8_map.insert cgroups inner.cgroup_id 1)) [
        | inl (m, i) ↦
            let p : s.pid_filter ≡ pids = ground (arith, i, e) in
            let q : s.cgroup_filter ≡ m = ground (arith, i, e) in
            by_cgroup inner.cgroup_id m cgroups ctx s (λ k. rw p (np k)) nc i q
        | inr (x, i) ↦ absurd (ground (arith, i, e))
      ]
