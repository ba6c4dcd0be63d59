-- ===== src/Data/Keeps.antt =====
-- Invariants of actions: `Keeps P m` says that `m` leads from a state with `P` to one with `P`,
-- whether it succeeds or fails.
use peekbeam.Prelude.{◌≡◌, Bool-cases, inl, inr, Bool, true, false, if◌then◌else◌}
use peekbeam.Data.Exec.{Result, ok, err, Exec, ◌>>=◌, pure, lift, gets, ignore, caught, continue}

pub record Keeps {ℓ κ μ} {S : Type ℓ} {A : Type κ} (P : S → Type μ) (m : Exec S A)
    : Type (ℓ ⊔ μ) where
  pub at : (s : S) → P s → P (m s).1

module _ {ℓ κ μ} {S : Type ℓ} {A : Type κ} {P : S → Type μ} where
  pub Keeps-pure : (a : A) → Keeps P (pure a)
  Keeps-pure a = record { at = λ s p. p }

  pub Keeps-lift : (r : Result A) → Keeps P (lift r)
  Keeps-lift r = record { at = λ s p. p }

  pub Keeps-gets : (f : S → A) → Keeps P (gets f)
  Keeps-gets f = record { at = λ s p. p }

  pub Keeps-if : (b : Bool) (m n : Exec S A) → Keeps P m → Keeps P n → Keeps P (if b then m else n)
  Keeps-if true m n km kn = km
  Keeps-if false m n km kn = kn

  pub Keeps-ignore : (m : Exec S A) → Keeps P m → Keeps P (ignore m)
  Keeps-ignore m k = record { at = k.at }

  pub Keeps-caught : (m : Exec S A) → Keeps P m → Keeps P (λ s. caught (m s))
  Keeps-caught m k = record { at = k.at }

module _ {ℓ κ κ' μ} {S : Type ℓ} {A : Type κ} {B : Type κ'} {P : S → Type μ} where
  at_continue :
      (r : Result A) (f : A → Exec S B) (s : S)
      → ((a : A) → Keeps P (f a))
      → P s
      → P (continue r f s).1
  at_continue (ok a) f s k p = (k a).at s p
  at_continue (err e) f s k p = p

  pub Keeps-bind :
      (first : Exec S A) (rest : A → Exec S B)
      → Keeps P first
      → ((r : A) → Keeps P (rest r))
      → Keeps P (first >>= rest)
  unfolding ◌>>=◌
  Keeps-bind first rest k l = record {
    at = λ s p. at_continue (first s).0 rest (first s).1 l (k.at s p);
  }

-- A branch on a test of the state may use the test's outcome.
pub Keeps-when {ℓ κ μ} :
    {S : Type ℓ} {A : Type κ} {P : S → Type μ} (t : S → Bool) (m n : Exec S A)
    → ((s : S) → P s → t s ≡ true → Keeps P m)
    → Keeps P n
    → Keeps P (gets t >>= λ b. if b then m else n)
unfolding ◌>>=◌
Keeps-when t m n k l = record {
  at = λ s p. elim (Bool-cases (t s)) [
    | inl hit ↦ rw hit ((k s p hit).at s p)
    | inr miss ↦ rw miss (l.at s p)
  ];
}

pub ruleset keeps_rules =
    (Keeps-pure, Keeps-lift, Keeps-gets, Keeps-if, Keeps-ignore, Keeps-caught, Keeps-bind)
