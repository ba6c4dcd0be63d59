-- ===== src/Data/Exec.antt =====
-- `Result` with an integer error code, and methods that change a state and may fail. What was
-- written before an error stays written, so the state comes back beside the error too.
use peekbeam.Data.Int.{ℤ, pos}

pub data Result {ℓ} (A : Type ℓ) : Type ℓ where
  ok : A → Result A
  err : ℤ → Result A

-- `r.map_err(|_| e)`
abbrev pub map_err {ℓ} : {A : Type ℓ} → ℤ → Result A → Result A
map_err e (ok a) = ok a
map_err e (err _) = err e

abbrev pub map_ok {ℓ κ} : {A : Type ℓ} {B : Type κ} → (A → B) → Result A → Result B
map_ok f (ok a) = ok (f a)
map_ok f (err e) = err e

abbrev pub Exec {ℓ κ} : Type ℓ → Type κ → Type (ℓ ⊔ κ)
Exec S A = S → Result A × S

module _ {ℓ κ} {S : Type ℓ} {A : Type κ} where
  abbrev pub pure : A → Exec S A
  pure a s = (ok a, s)

  abbrev pub lift : Result A → Exec S A
  lift r s = (r, s)

  abbrev pub gets : (S → A) → Exec S A
  gets f s = (ok (f s), s)

module _ {ℓ κ μ} {S : Type ℓ} {A : Type κ} {B : Type μ} where
  abbrev pub continue : Result A → (A → Exec S B) → Exec S B
  continue (ok a) f s = f a s
  continue (err e) f s = (err e, s)

  infixl 5 ◌>>=◌ ◌>>◌
  unfoldable pub ◌>>=◌ : Exec S A → (A → Exec S B) → Exec S B
  ◌>>=◌ m f s = continue (m s).0 f (m s).1

  abbrev pub ◌>>◌ : Exec S A → Exec S B → Exec S B
  m >> n = m >>= λ _. n

-- A step that does not fail.
abbrev pub modify {ℓ} : {S : Type ℓ} → (S → S) → Exec S (Unit {0})
modify f s = (ok tt, f s)

-- `let _ = m;`: the result is dropped, what was written stays.
abbrev pub ignore {ℓ κ} : {S : Type ℓ} {A : Type κ} → Exec S A → Exec S (Unit {0})
ignore m s = (ok tt, (m s).1)

-- `.map_err(|_| 1u32)` on the result of an action.
abbrev pub caught {ℓ κ} : {S : Type ℓ} {A : Type κ} → Result A × S → Result A × S
caught r = (map_err (pos 1) r.0, r.1)
