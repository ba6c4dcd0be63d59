-- ===== src/Data/Sort.antt =====
-- `slice::sort_by`, the stable sort of `std`, on lists.
use Prim.Native.Nat.{compare, Ordering}
use mathlib.Core.List.{Perm, Pairwise, Mem, Pairwise-singleton, Pairwise-cons, forall_mem-cons}
use native.Mathlib.Bridge.{le_prop}
use mathlib.Core.List.Perm
use peekbeam.Data.Lists.{length, filter}
use peekbeam.Prelude.{
  ℕ, suc, map, ◌≤◌, ◌≡◌, refl, ap, ◌∙◌, Bool, true, false, List, [], ◌∷◌, arith, nat_beq,
  if◌then◌else◌, Bool-cases, inl, inr,
}

module _ {ℓ} {A : Type ℓ} where
  -- The first element is behind the second.
  abbrev pub behind : (A → A → Ordering) → A → A → Bool
  behind cmp x y = elim (cmp x y) [ Ordering.gt ↦ true | _ ↦ false ]

  -- An element goes before the first one that it is not behind, so that equal ones keep their order.
  unfoldable pub sorted_insert : (A → A → Ordering) → A → List A → List A
  sorted_insert cmp x [] = x ∷ []
  sorted_insert cmp x (y ∷ ys) =
      let rest = sorted_insert cmp x ys in if behind cmp x y then y ∷ rest else x ∷ y ∷ ys

  unfoldable pub sort_by : (A → A → Ordering) → List A → List A
  unfolding sorted_insert
  sort_by cmp [] = []
  sort_by cmp (x ∷ xs) = sorted_insert cmp x (sort_by cmp xs)

  sorted_insert-perm :
      (cmp : A → A → Ordering) (x : A) (l : List A) → Perm (sorted_insert cmp x l) (x ∷ l)
  unfolding sorted_insert
  sorted_insert-perm cmp x [] = Perm.rfl
  sorted_insert-perm cmp x (y ∷ ys) = elim (Bool-cases (behind cmp x y)) [
    | inl b ↦ rw b (Perm.trans (Perm.cons y (sorted_insert-perm cmp x ys)) (Perm.swap x y ys))
    | inr n ↦ rw n Perm.rfl
  ]

  -- The elements stay the same.
  pub sort_by-perm : (cmp : A → A → Ordering) (l : List A) → Perm (sort_by cmp l) l
  unfolding sort_by
  sort_by-perm cmp [] = Perm.rfl
  sort_by-perm cmp (x ∷ xs) =
      Perm.trans (sorted_insert-perm cmp x (sort_by cmp xs)) (Perm.cons x (sort_by-perm cmp xs))

  module _ (key : A → ℕ) where
    -- `|a, b| key(b).cmp(&key(a))`
    abbrev pub by_largest : A → A → Ordering
    by_largest a b = compare (key b) (key a)

    -- No element has a smaller key than one behind it.
    abbrev pub IsDescending : List A → Type ℓ
    IsDescending = Pairwise (λ a b. key b ≤ key a)

    -- The elements with the key `k`, in their order.
    abbrev pub with_key : ℕ → List A → List A
    with_key k [] = []
    with_key k (x ∷ xs) = if nat_beq (key x) k then x ∷ with_key k xs else with_key k xs

    -- Every key of the list is at most `n`.
    abbrev Below : ℕ → List A → Type ℓ
    Below n l = (z : A) → Mem z l → key z ≤ n

    Below-cons : (n : ℕ) (y : A) (l : List A) → key y ≤ n → Below n l → Below n (y ∷ l)
    Below-cons n y l h k = (forall_mem-cons (λ z. le_prop)).1 (h, k)

    Below-weaken : (m n : ℕ) (l : List A) → m ≤ n → Below m l → Below n l
    Below-weaken m n l h b z i = let k = b z i in omega (arith, h, k)

    Below-perm : (n : ℕ) (l r : List A) → Perm l r → Below n r → Below n l
    Below-perm n l r p b z i = b z ((Perm.mem_iff p).0 i)

    insert-IsDescending :
        (x : A) (l : List A) → IsDescending l → IsDescending (sorted_insert by_largest x l)
    unfolding sorted_insert
    insert-IsDescending x [] d = Pairwise-singleton _ x
    insert-IsDescending x (y ∷ ys) d =
        let (below, tail) = Pairwise-cons.0 d in
        elim (Bool-cases (behind by_largest x y)) [
          | inl b ↦
              let lower : key x ≤ key y = ground (arith, b) in
              rw b (
                Pairwise.cons
                  (Below-perm (key y) _ _ (sorted_insert-perm by_largest x ys)
                    (Below-cons (key y) x ys lower below))
                  (insert-IsDescending x ys tail))
          | inr n ↦
              let higher : key y ≤ key x = ground (arith, n) in
              rw n (
                Pairwise.cons
                  (Below-cons (key x) y ys higher (Below-weaken (key y) (key x) ys higher below)) d)
        ]

    -- Sorted with the largest key first.
    pub sort_by-IsDescending : (l : List A) → IsDescending (sort_by by_largest l)
    unfolding sort_by
    sort_by-IsDescending [] = Pairwise.nil
    sort_by-IsDescending (x ∷ xs) =
        insert-IsDescending x (sort_by by_largest xs) (sort_by-IsDescending xs)

    insert-with_key :
        (k : ℕ) (x : A) (l : List A)
        → with_key k (sorted_insert by_largest x l) ≡ with_key k (x ∷ l)
    unfolding sorted_insert
    insert-with_key k x [] = refl
    insert-with_key k x (y ∷ ys) = ground (arith, insert-with_key k x ys)

    -- Elements with the same key keep their order.
    pub sort_by-with_key : (k : ℕ) (l : List A) → with_key k (sort_by by_largest l) ≡ with_key k l
    unfolding sort_by
    sort_by-with_key k [] = refl
    sort_by-with_key k (x ∷ xs) =
        insert-with_key k x (sort_by by_largest xs) ∙ ground (arith, sort_by-with_key k xs)

  -- Counting does not depend on the order.
  count-insert :
      (p : A → Bool) (cmp : A → A → Ordering) (x : A) (l : List A)
      → length (filter p (sorted_insert cmp x l)) ≡ length (filter p (x ∷ l))
  unfolding sorted_insert
  count-insert p cmp x [] = refl
  count-insert p cmp x (y ∷ ys) = ground (arith, count-insert p cmp x ys)

  pub count-sort_by :
      (p : A → Bool) (cmp : A → A → Ordering) (l : List A)
      → length (filter p (sort_by cmp l)) ≡ length (filter p l)
  unfolding sort_by
  count-sort_by p cmp [] = refl
  count-sort_by p cmp (x ∷ xs) =
      count-insert p cmp x (sort_by cmp xs) ∙ ground (arith, count-sort_by p cmp xs)

  length-sorted_insert :
      (cmp : A → A → Ordering) (x : A) (l : List A)
      → length (sorted_insert cmp x l) ≡ suc (length l)
  unfolding sorted_insert
  length-sorted_insert cmp x [] = refl
  length-sorted_insert cmp x (y ∷ ys) = ground (arith, length-sorted_insert cmp x ys)

  pub length-sort_by : (cmp : A → A → Ordering) (l : List A) → length (sort_by cmp l) ≡ length l
  unfolding sort_by
  length-sort_by cmp [] = refl
  length-sort_by cmp (x ∷ xs) =
      length-sorted_insert cmp x (sort_by cmp xs) ∙ ap suc (length-sort_by cmp xs)

-- Sorting what a function makes of the elements is sorting the elements.
module _ {ℓ κ} {A : Type ℓ} {B : Type κ} (g : A → B) (cmp : B → B → Ordering) where
  abbrev pub before_map : A → A → Ordering
  before_map a b = cmp (g a) (g b)

  sorted_insert-map :
      (x : A) (l : List A)
      → sorted_insert cmp (g x) (map g l) ≡ map g (sorted_insert before_map x l)
  unfolding sorted_insert
  sorted_insert-map x [] = refl
  sorted_insert-map x (y ∷ ys) = elim (Bool-cases (behind cmp (g x) (g y))) [
    | inl b ↦ rw b (ap (λ r. g y ∷ r) (sorted_insert-map x ys))
    | inr n ↦ rw n refl
  ]

  pub sort_by-map : (l : List A) → sort_by cmp (map g l) ≡ map g (sort_by before_map l)
  unfolding sort_by
  sort_by-map [] = refl
  sort_by-map (x ∷ xs) =
      ap (sorted_insert cmp (g x)) (sort_by-map xs) ∙ sorted_insert-map x (sort_by before_map xs)
