-- ===== src/Ebpf/Proofs/Filtering.antt =====
-- Filtering on the target (peekbeam-ebpf/src/main.rs, `matches_target` and its uses).
use peekbeam.Prelude.{
  ℕ, ◌≡◌, true, none, some, List, [], ◌∷◌, arith, ◌==◌, inl, inr, nat_eq, if◌then◌else◌,
}
use peekbeam.Data.Lists.{All, All-append}
use peekbeam.Data.Keeps.{Keeps}
use peekbeam.Common.{SyscallEvent, FileEvent, MemEvent}
use peekbeam.Ebpf.Host.{Host, TracePointContext}
use peekbeam.Ebpf.State.{
  Maps, is_some, matches_target, track_sock, untrack_sock, insert_open, remove_open, insert_fd,
  remove_fd, output_syscall, output_net, output_file, output_mem,
}
use peekbeam.Ebpf.Programs.{Hook, fire, run}
use peekbeam.Ebpf.Proofs.Writes.{output_syscall-cases, output_file-cases, output_mem-cases}
use peekbeam.Ebpf.Proofs.Steps.{WritesKeep, fire-keeps, run-keeps}

module _ (h : Host) where
  -- The filters that the userspace has set, and a property of the pid of every record that names one.
  pub record IsScoped (pids : h.u8_map.Map) (cgroups : h.u8_map.Map) (Q : ℕ → Type 0) (s : Maps h)
      : Type 0 where
    pub pid_filter : s.pid_filter ≡ pids
    pub cgroup_filter : s.cgroup_filter ≡ cgroups
    pub syscalls : All (λ e. Q e.pid) (h.syscall_ring.records s.events)
    pub files : All (λ e. Q e.pid) (h.file_ring.records s.file_events)
    pub mems : All (λ e. Q e.pid) (h.mem_ring.records s.mem_events)

  -- The filter of a task by the maps that the userspace has set.
  abbrev pub Passes : h.u8_map.Map → h.u8_map.Map → TracePointContext → Type 0
  Passes pids cgroups ctx =
      (if is_some (h.u8_map.get pids ctx.tgid)
        then true
        else is_some (h.u8_map.get cgroups ctx.cgroup_id))
      ≡ true

  module _ {pids cgroups : h.u8_map.Map} {Q : ℕ → Type 0} where
    syscall-IsScoped :
        (e : SyscallEvent) → Q e.pid → Keeps (IsScoped pids cgroups Q) (output_syscall h e)
    syscall-IsScoped e q = record {
      at = λ s p. elim (output_syscall-cases h s e) [
        | inl (r, grown, done) ↦ rw done (record {
          pid_filter = p.pid_filter;
          cgroup_filter = p.cgroup_filter;
          syscalls = rw grown (All-append (λ e. Q e.pid) _ (e ∷ []) p.syscalls (q, tt));
          files = p.files;
          mems = p.mems;
        })
        | inr (x, refused) ↦ rw refused p
      ];
    }

    file-IsScoped : (e : FileEvent) → Q e.pid → Keeps (IsScoped pids cgroups Q) (output_file h e)
    file-IsScoped e q = record {
      at = λ s p. elim (output_file-cases h s e) [
        | inl (r, grown, done) ↦ rw done (record {
          pid_filter = p.pid_filter;
          cgroup_filter = p.cgroup_filter;
          syscalls = p.syscalls;
          files = rw grown (All-append (λ e. Q e.pid) _ (e ∷ []) p.files (q, tt));
          mems = p.mems;
        })
        | inr (x, refused) ↦ rw refused p
      ];
    }

    mem-IsScoped : (e : MemEvent) → Q e.pid → Keeps (IsScoped pids cgroups Q) (output_mem h e)
    mem-IsScoped e q = record {
      at = λ s p. elim (output_mem-cases h s e) [
        | inl (r, grown, done) ↦ rw done (record {
          pid_filter = p.pid_filter;
          cgroup_filter = p.cgroup_filter;
          syscalls = p.syscalls;
          files = p.files;
          mems = rw grown (All-append (λ e. Q e.pid) _ (e ∷ []) p.mems (q, tt));
        })
        | inr (x, refused) ↦ rw refused p
      ];
    }

    writes-IsScoped :
        (ctx : TracePointContext)
        → (Passes pids cgroups ctx → Q ctx.tgid)
        → WritesKeep h (IsScoped pids cgroups Q) (Q ctx.tgid) ctx
    unfolding matches_target track_sock untrack_sock insert_open remove_open insert_fd remove_fd
        output_net
    writes-IsScoped ctx enough = record {
      files = record {
        to_open = λ _ o. record { at = λ s p. ground arith };
        no_open = λ _. record { at = λ s p. ground arith };
        to_fd = λ _ fd. record { at = λ s p. ground arith };
        no_fd = λ _. record { at = λ s p. ground arith };
        file = λ q e same. file-IsScoped e (rw same q);
      };
      nets = record {
        track = λ k. record { at = λ s p. ground arith };
        untrack = λ k. record { at = λ s p. ground arith };
        net = λ e. record { at = λ s p. ground arith };
      };
      mems = record {
        matched = λ s p hit. enough (rw (← p.pid_filter, ← p.cgroup_filter) hit);
        mem = λ q e same. mem-IsScoped e (rw same q);
      };
      syscall = λ q e same. syscall-IsScoped e (rw same q);
    }

  fires-IsScoped :
      (pids cgroups : h.u8_map.Map) (Q : ℕ → Type 0) (steps : List (Hook × TracePointContext))
      → All (λ e. Passes pids cgroups e.1 → Q e.1.tgid) steps
      → All
          (λ e.
            (t : Maps h) → IsScoped pids cgroups Q t → IsScoped pids cgroups Q (fire h e.0 e.1 t).1)
          steps
  fires-IsScoped pids cgroups Q [] k = tt
  fires-IsScoped pids cgroups Q ((hook, ctx) ∷ rest) k =
      (fire-keeps h ctx (writes-IsScoped ctx k.0) hook, fires-IsScoped pids cgroups Q rest k.1)

  -- Whatever fires, the two filters stay as the userspace set them, and if every task of the run
  -- that passes them has a property of its process id, then so have the process ids of all records
  -- in the rings of syscalls, files and memory, provided that the records before had it.
  pub run-IsScoped :
      (pids cgroups : h.u8_map.Map) (Q : ℕ → Type 0) (steps : List (Hook × TracePointContext))
      (s : Maps h)
      → All (λ e. Passes pids cgroups e.1 → Q e.1.tgid) steps
      → IsScoped pids cgroups Q s
      → IsScoped pids cgroups Q (run h steps s)
  run-IsScoped pids cgroups Q steps s k p =
      run-keeps h (IsScoped pids cgroups Q) steps s (fires-IsScoped pids cgroups Q steps k) p

  module _ (p : ℕ) (pids cgroups : h.u8_map.Map)
      (one : (k : ℕ) → h.u8_map.get pids k ≡ (if p == k then some 1 else none))
      (empty : (k : ℕ) → h.u8_map.get cgroups k ≡ none) where
    pid_of-Passes : (ctx : TracePointContext) → Passes pids cgroups ctx → ctx.tgid ≡ p
    pid_of-Passes ctx = ground (arith, one ctx.tgid, empty ctx.cgroup_id)

    passers_are :
        (steps : List (Hook × TracePointContext))
        → All (λ e. Passes pids cgroups e.1 → e.1.tgid ≡ p) steps
    passers_are [] = tt
    passers_are ((hook, ctx) ∷ rest) = (pid_of-Passes ctx, passers_are rest)

    -- With the filter on the process id `p` and no filter on cgroups, as `--pid p` sets them, every
    -- record of a syscall, a file access or an allocation that any run writes carries `p`.
    pub pid_mode :
        (steps : List (Hook × TracePointContext)) (s : Maps h)
        → IsScoped pids cgroups (λ q. q ≡ p) s
        → IsScoped pids cgroups (λ q. q ≡ p) (run h steps s)
    pid_mode steps s = run-IsScoped pids cgroups (λ q. q ≡ p) steps s (passers_are steps)
