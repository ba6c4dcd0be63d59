-- ===== src/Container/Inversion.antt =====
-- What a chain of steps that succeeds says of each step (the error handling of
-- peekbeam/src/container.rs and peekbeam/src/pod.rs).
use peekbeam.Prelude.{◌≡◌, refl, Bool, true, false, Option, none, some, arith}
use peekbeam.Container.{Outcome, done, failed, Failure, ◌>>=◌, ◌>>◌, or_fail, unless}

pub bind-done {ℓ κ} :
    {A : Type ℓ} {B : Type κ} (o : Outcome A) (f : A → Outcome B) {b : B}
    → (o >>= f) ≡ done b
    → (a : A) × (o ≡ done a) × (f a ≡ done b)
bind-done (done a) f e = (a, refl, e)
bind-done (failed x) f e = absurd (ground (arith, e))

pub then-done {ℓ κ} :
    {A : Type ℓ} {B : Type κ} (o : Outcome A) (p : Outcome B) {b : B}
    → (o >> p) ≡ done b
    → (a : A) × (o ≡ done a) × (p ≡ done b)
then-done (done a) p e = (a, refl, e)
then-done (failed x) p e = absurd (ground (arith, e))

pub unless-done : (b : Bool) (x : Failure) {u : Unit {0}} → unless b x ≡ done u → b ≡ false
unless-done true x e = absurd (ground (arith, e))
unless-done false x e = refl

pub or_fail-done {ℓ} :
    {A : Type ℓ} (x : Failure) (o : Option A) {a : A} → or_fail x o ≡ done a → o ≡ some a
or_fail-done x none e = absurd (ground (arith, e))
or_fail-done x (some b) e = ground (arith, e)
