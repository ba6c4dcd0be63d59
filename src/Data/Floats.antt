-- ===== src/Data/Floats.antt =====
-- The numbers of type f64, and what the source does with them: a parameter. `fixed n x` is `{x:.n}`;
-- `rank` is the place of a value in the order, by which `partial_cmp` compares values that are numbers,
-- such as the quotients of a u64 by 1000.
use Prim.Native.Nat.{compare, Ordering}
use peekbeam.Prelude.{ℕ, zero, suc, ◌^◌, ◌<◌, ◌≡◌, Bool, Option, some, leb}
use peekbeam.Data.Text.{Text}

pub record Floats : Type 1 where
  pub F64 : Type 0
  pub of_u64 : ℕ → F64
  pub div : F64 → ℕ → F64
  pub ge : F64 → ℕ → Bool
  pub partial_cmp : F64 → F64 → Option Ordering
  pub fixed : ℕ → F64 → Text
  pub rank : F64 → ℕ
  pub partial_cmp-rank :
      (m n : ℕ)
      → partial_cmp (div (of_u64 m) 1000) (div (of_u64 n) 1000)
        ≡ some (compare (rank (div (of_u64 m) 1000)) (rank (div (of_u64 n) 1000)))

-- Divided by 1024, `n` times over.
abbrev pub scaled : (f : Floats) → ℕ → f.F64 → f.F64
scaled f zero x = x
scaled f (suc n) x = f.div (scaled f n x) 1024

-- A number below 2^53 has an exact f64, and the quotients by powers of two are exact: comparing them
-- is comparing the numbers.
abbrev pub IsExact : Floats → Type 0
IsExact f = (b n : ℕ) → b < 2 ^ 53 → f.ge (scaled f n (f.of_u64 b)) 1024 ≡ leb (1024 ^ suc n) b
