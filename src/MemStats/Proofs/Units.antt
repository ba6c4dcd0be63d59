-- ===== src/MemStats/Proofs/Units.antt =====
-- The unit that a size is shown in (`format_bytes` of peekbeam/src/mem_stats.rs).
use peekbeam.Prelude.{ℕ, zero, suc, ◌^◌, ◌≤◌, ◌<◌, ◌≡◌, [], ◌∷◌, ◌++◌, arith, ◌⊎◌}
use peekbeam.Data.HashMap.{or_default}
use peekbeam.Data.Lists.{get_elem?}
use peekbeam.Data.Text.{Text, decimal}
use peekbeam.Data.Floats.{Floats, scaled, IsExact}
use peekbeam.MemStats.{scale, units, format_bytes}

-- The unit is the largest power of 1024 that is not above the size, TiB at most.
abbrev pub IsUnit : ℕ → ℕ → Type 0
IsUnit b k = ((k ≡ 0) ⊎ (1024 ^ k ≤ b)) × ((k ≡ 4) ⊎ (b < 1024 ^ suc k)) × (k ≤ 4)

-- The name of a unit.
abbrev pub unit_name : ℕ → Text
unit_name k = or_default [] (get_elem? units k)

module _ (f : Floats) where
  -- A size in that unit: the number itself, or the quotient with one decimal.
  unfoldable pub shown_in : ℕ → ℕ → Text
  shown_in zero b = decimal b ++ (32 ∷ unit_name 0)
  shown_in (suc k) b = f.fixed 1 (scaled f (suc k) (f.of_u64 b)) ++ (32 ∷ unit_name (suc k))

  -- For sizes below 2^53, whose f64 and whose quotients by powers of 1024 are exact: a size is shown
  -- in the largest unit that it reaches, bytes as they are, and TiB also for what is larger.
  pub format_bytes_unit :
      (b k : ℕ) → IsExact f → b < 2 ^ 53 → IsUnit b k → format_bytes f b ≡ shown_in k b
  unfolding format_bytes scale shown_in
  format_bytes_unit b zero exact small u = ground (arith, exact b 0 small, u)
  format_bytes_unit b (suc zero) exact small u = ground (arith, exact b 0 small, exact b 1 small, u)
  format_bytes_unit b (suc (suc zero)) exact small u =
      ground (arith, exact b 0 small, exact b 1 small, exact b 2 small, u)
  format_bytes_unit b (suc (suc (suc zero))) exact small u =
      ground (arith, exact b 0 small, exact b 1 small, exact b 2 small, exact b 3 small, u)
  format_bytes_unit b (suc (suc (suc (suc zero)))) exact small u =
      ground (arith, exact b 0 small, exact b 1 small, exact b 2 small, exact b 3 small, u)
  format_bytes_unit b (suc (suc (suc (suc (suc k))))) exact small u = absurd (omega (arith, u.2))
