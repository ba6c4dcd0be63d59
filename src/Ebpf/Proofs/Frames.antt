-- ===== src/Ebpf/Proofs/Frames.antt =====
-- What a firing leaves alone: the filters, and what is pending for other processes
-- (peekbeam-ebpf/src/main.rs, the maps keyed by pid).
use peekbeam.Prelude.{ℕ, ◌≡◌, refl, ◌∙◌, ◌≢◌, Option, List, [], ◌∷◌, arith, nat_eq, inl, inr}
use peekbeam.Data.Int.{ℤ}
use peekbeam.Data.Lists.{All}
use peekbeam.Data.Keeps.{Keeps}
use peekbeam.Ebpf.Host.{Host, PendingOpen, TracePointContext}
use peekbeam.Ebpf.State.{
  Maps, matches_target, track_sock, untrack_sock, insert_open, remove_open, insert_fd, remove_fd,
  output_syscall, output_net, output_file, output_mem,
}
use peekbeam.Ebpf.Programs.{Hook, fire, run}
use peekbeam.Ebpf.Proofs.Writes.{insert_open-cases, insert_fd-cases}
use peekbeam.Ebpf.Proofs.Steps.{WritesKeep, fire-keeps, run-keeps}

-- The firing is in another process.
abbrev pub IsOther : ℕ → Hook × TracePointContext → Type 0
IsOther p e = e.1.tgid ≢ p

module _ (h : Host) where
  pub record SameFilters (s : Maps h) (t : Maps h) : Type 0 where
    pub pids : t.pid_filter ≡ s.pid_filter
    pub cgroups : t.cgroup_filter ≡ s.cgroup_filter

  writes-SameFilters :
      (s : Maps h) (ctx : TracePointContext) → WritesKeep h (SameFilters s) (Unit {0}) ctx
  unfolding track_sock untrack_sock insert_open remove_open insert_fd remove_fd output_syscall
      output_net output_file output_mem
  writes-SameFilters s ctx = record {
    files = record {
      to_open = λ _ o. record { at = λ s p. ground arith };
      no_open = λ _. record { at = λ s p. ground arith };
      to_fd = λ _ fd. record { at = λ s p. ground arith };
      no_fd = λ _. record { at = λ s p. ground arith };
      file = λ _ e _. record { at = λ s p. ground arith };
    };
    nets = record {
      track = λ k. record { at = λ s p. ground arith };
      untrack = λ k. record { at = λ s p. ground arith };
      net = λ e. record { at = λ s p. ground arith };
    };
    mems = record { matched = λ _ _ _. tt; mem = λ _ e _. record { at = λ s p. ground arith } };
    syscall = λ _ e _. record { at = λ s p. ground arith };
  }

  fires-SameFilters :
      (s : Maps h) (steps : List (Hook × TracePointContext))
      → All (λ e. (t : Maps h) → SameFilters s t → SameFilters s (fire h e.0 e.1 t).1) steps
  fires-SameFilters s [] = tt
  fires-SameFilters s ((hook, ctx) ∷ rest) =
      (fire-keeps h ctx (writes-SameFilters s ctx) hook, fires-SameFilters s rest)

  -- No program changes a filter.
  pub run-SameFilters :
      (steps : List (Hook × TracePointContext)) (s : Maps h) → SameFilters s (run h steps s)
  run-SameFilters steps s =
      run-keeps h (SameFilters s) steps s (fires-SameFilters s steps)
        (record { pids = refl; cgroups = refl })

  pub fire-SameFilters :
      (hook : Hook) (ctx : TracePointContext) (s : Maps h) → SameFilters s (fire h hook ctx s).1
  fire-SameFilters hook ctx s =
      fire-keeps h ctx (writes-SameFilters s ctx) hook s (record { pids = refl; cgroups = refl })

  pub SameFilters-trans : {s t u : Maps h} → SameFilters s t → SameFilters t u → SameFilters s u
  SameFilters-trans f g = record { pids = g.pids ∙ f.pids; cgroups = g.cgroups ∙ f.cgroups }

  -- So a task passes the filter after as before.
  pub matches-SameFilters :
      (s t : Maps h) (ctx : TracePointContext) (p : ℕ)
      → SameFilters s t
      → matches_target h ctx p t ≡ matches_target h ctx p s
  unfolding matches_target
  matches-SameFilters s t ctx p f = rw (f.pids, f.cgroups)

  -- What is pending for the process `j`: the path of an open, and the descriptor of another call.
  pub record PendingIs (j : ℕ) (o : Option PendingOpen) (d : Option ℤ) (s : Maps h) : Type 0 where
    pub path : h.open_map.get s.pending_open_path j ≡ o
    pub fd : h.fd_map.get s.pending_fd j ≡ d

  module _ (j : ℕ) {o : Option PendingOpen} {d : Option ℤ} (k : ℕ) (other : k ≢ j) where
    to_open-PendingIs : (p : PendingOpen) → Keeps (PendingIs j o d) (insert_open h k p)
    to_open-PendingIs p = record {
      at = λ s is. elim (insert_open-cases h s k p) [
        | inl (m, e, done) ↦ rw done (record {
          path = ground (arith, h.open_map.get-insert s.pending_open_path m k j p e, is.path);
          fd = is.fd;
        })
        | inr (x, refused) ↦ rw refused is
      ];
    }

    to_fd-PendingIs : (fd : ℤ) → Keeps (PendingIs j o d) (insert_fd h k fd)
    to_fd-PendingIs fd = record {
      at = λ s is. elim (insert_fd-cases h s k fd) [
        | inl (m, e, done) ↦ rw done (record {
          path = is.path;
          fd = ground (arith, h.fd_map.get-insert s.pending_fd m k j fd e, is.fd);
        })
        | inr (x, refused) ↦ rw refused is
      ];
    }

    no_open-PendingIs : Keeps (PendingIs j o d) (remove_open h k)
    unfolding remove_open
    no_open-PendingIs = record {
      at = λ s is. record {
        path = ground (arith, h.open_map.get-remove s.pending_open_path k j, is.path);
        fd = is.fd;
      };
    }

    no_fd-PendingIs : Keeps (PendingIs j o d) (remove_fd h k)
    unfolding remove_fd
    no_fd-PendingIs = record {
      at = λ s is. record {
        path = is.path;
        fd = ground (arith, h.fd_map.get-remove s.pending_fd k j, is.fd);
      };
    }

  writes-PendingIs :
      (j : ℕ) {o : Option PendingOpen} {d : Option ℤ} (ctx : TracePointContext)
      → ctx.tgid ≢ j
      → WritesKeep h (PendingIs j o d) (Unit {0}) ctx
  unfolding track_sock untrack_sock output_syscall output_net output_file output_mem
  writes-PendingIs j ctx other = record {
    files = record {
      to_open = λ _ p. to_open-PendingIs j ctx.tgid other p;
      no_open = λ _. no_open-PendingIs j ctx.tgid other;
      to_fd = λ _ fd. to_fd-PendingIs j ctx.tgid other fd;
      no_fd = λ _. no_fd-PendingIs j ctx.tgid other;
      file = λ _ e _. record { at = λ s p. ground arith };
    };
    nets = record {
      track = λ k. record { at = λ s p. ground arith };
      untrack = λ k. record { at = λ s p. ground arith };
      net = λ e. record { at = λ s p. ground arith };
    };
    mems = record { matched = λ _ _ _. tt; mem = λ _ e _. record { at = λ s p. ground arith } };
    syscall = λ _ e _. record { at = λ s p. ground arith };
  }

  fires-PendingIs :
      (j : ℕ) (o : Option PendingOpen) (d : Option ℤ) (steps : List (Hook × TracePointContext))
      → All (IsOther j) steps
      → All (λ e. (t : Maps h) → PendingIs j o d t → PendingIs j o d (fire h e.0 e.1 t).1) steps
  fires-PendingIs j o d [] k = tt
  fires-PendingIs j o d ((hook, ctx) ∷ rest) k =
      (fire-keeps h ctx (writes-PendingIs j ctx k.0) hook, fires-PendingIs j o d rest k.1)

  -- Firings in other processes leave alone what is pending for a process.
  pub run-PendingIs :
      (j : ℕ) (o : Option PendingOpen) (d : Option ℤ) (steps : List (Hook × TracePointContext))
      (s : Maps h)
      → All (IsOther j) steps
      → PendingIs j o d s
      → PendingIs j o d (run h steps s)
  run-PendingIs j o d steps s k p =
      run-keeps h (PendingIs j o d) steps s (fires-PendingIs j o d steps k) p
