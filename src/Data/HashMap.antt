-- ===== src/Data/HashMap.antt =====
-- `std::collections::HashMap`, as an association list in which no key stands twice. Its order is
-- one that the source never relies on; `entries` is what `iter()` yields in some order.
use peekbeam.Prelude.{
  ◌≡◌, refl, Option-cases, inl, inr, Option, none, some, List, [], ◌∷◌, arith, Eq, ◌==◌,
  if◌then◌else◌,
}

pub record HashMap {ℓ κ} (K : Type ℓ) (V : Type κ) : Type (ℓ ⊔ κ) where
  pub entries : List (K × V)

abbrev pub or_default {ℓ} : {V : Type ℓ} → V → Option V → V
or_default d none = d
or_default d (some v) = v

module _ {ℓ κ} {K : Type ℓ} {V : Type κ} where
  abbrev pub new : HashMap K V
  new = record { entries = [] }

module _ {ℓ κ} {K : Type ℓ} {V : Type κ} ⦃e : Eq K⦄ where
  unfoldable pub find : K → List (K × V) → Option V
  find k [] = none
  find k ((j, v) ∷ l) = if j == k then some v else find k l

  unfoldable pub put : K → V → List (K × V) → List (K × V)
  put k v [] = (k, v) ∷ []
  put k v ((j, w) ∷ l) = if j == k then (k, v) ∷ l else (j, w) ∷ put k v l

  unfoldable pub without : K → List (K × V) → List (K × V)
  without k [] = []
  without k ((j, w) ∷ l) = let rest = without k l in if j == k then rest else (j, w) ∷ rest

  unfoldable pub get : HashMap K V → K → Option V
  get m k = find k m.entries

  unfoldable pub insert : HashMap K V → K → V → HashMap K V
  insert m k v = record { entries = put k v m.entries }

  unfoldable pub remove : HashMap K V → K → HashMap K V
  remove m k = record { entries = without k m.entries }

  -- `m.entry(k).or_insert(d)`, and then a change of the entry in place
  unfoldable pub entry : HashMap K V → K → V → (V → V) → HashMap K V
  entry m k d f = insert m k (f (or_default d (get m k)))

  -- `if let Some(v) = m.get_mut(k) { change v }`
  unfoldable pub get_mut : HashMap K V → K → (V → V) → HashMap K V
  get_mut m k f = elim (get m k) [ none ↦ m | some v ↦ insert m k (f v) ]

  find-put :
      (k j : K) (v : V) (l : List (K × V))
      → find j (put k v l) ≡ (if k == j then some v else find j l)
  unfolding find put
  find-put k j v [] = refl
  find-put k j v ((i, w) ∷ l) =
      ground (arith, e.beq_iff k j, e.beq_iff i k, e.beq_iff i j, find-put k j v l)

  find-without :
      (k j : K) (l : List (K × V)) → find j (without k l) ≡ (if k == j then none else find j l)
  unfolding find without
  find-without k j [] = ground arith
  find-without k j ((i, w) ∷ l) =
      ground (arith, e.beq_iff k j, e.beq_iff i k, e.beq_iff i j, find-without k j l)

  pub get-insert :
      (m : HashMap K V) (k j : K) (v : V)
      → get (insert m k v) j ≡ (if k == j then some v else get m j)
  unfolding get insert
  get-insert m k j v = find-put k j v m.entries

  pub get-remove :
      (m : HashMap K V) (k j : K) → get (remove m k) j ≡ (if k == j then none else get m j)
  unfolding get remove
  get-remove m k j = find-without k j m.entries

  pub get-entry :
      (m : HashMap K V) (k j : K) (d : V) (f : V → V)
      → get (entry m k d f) j ≡ (if k == j then some (f (or_default d (get m k))) else get m j)
  unfolding entry
  get-entry m k j d f = get-insert m k j (f (or_default d (get m k)))

  pub get-get_mut :
      (m : HashMap K V) (k j : K) (f : V → V)
      → get (get_mut m k f) j
        ≡ (if k == j then elim (get m k) [ none ↦ none | some v ↦ some (f v) ] else get m j)
  unfolding get_mut
  get-get_mut m k j f = elim (Option-cases (get m k)) [
    | inl e₀ ↦ rw (e₀, get_mut) (ground (arith, e.beq_iff k j))
    | inr (v, e₁) ↦ rw (e₁, get_mut) (get-insert m k j (f v))
  ]

pub get-new {ℓ κ} :
    {K : Type ℓ} {V : Type κ} ⦃e : Eq K⦄ (k : K) → get (new {K = K} {V = V}) k ≡ none
unfolding get find
get-new k = refl
