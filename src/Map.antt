-- ===== src/Map.antt =====
-- Go's maps as association lists. A missing key reads as the
-- zero value that the caller names, and `range` visits the entries in the order of the list: what is
-- stated for every list holds for each order that Go may choose.
use mathlib.Core.Path.{ap₂}
use proxima_scheduler.Prelude.{
  ◌≡◌, refl, ap, subst, ◌⊎◌, Bool, true, false, Option, none, some, List, [], ◌∷◌, arith,
  Comparable, ◌==◌, if◌then◌else◌, In, inl, inr, Bool-cases, Option-cases, beq_refl, beq_ne,
}

abbrev pub Map {ℓ} : Type ℓ → Type ℓ → Type ℓ
Map K V = List (K × V)

module _ {ℓ} {K V : Type ℓ} ⦃c : Comparable K⦄ where
  unfoldable pub lookup : K → Map K V → Option V
  lookup key ((k, value) ∷ rest) = if k == key then some value else lookup key rest
  lookup key [] = none

  -- `_, ok := m[k]`
  unfoldable pub has : K → Map K V → Bool
  unfolding lookup
  has key m = elim (lookup key m) [ none ↦ false | some value ↦ true ]

  -- `m[k]`
  unfoldable pub get_or : V → K → Map K V → V
  unfolding lookup
  get_or zero_value key m = elim (lookup key m) [ none ↦ zero_value | some value ↦ value ]

  -- `delete(m, k)`
  unfoldable pub delete : K → Map K V → Map K V
  delete key ((k, value) ∷ rest) =
      if k == key then delete key rest else (k, value) ∷ delete key rest
  delete key [] = []

  -- `m[k] = v`
  unfoldable pub insert : K → V → Map K V → Map K V
  insert key new ((k, value) ∷ rest) =
      if k == key then (key, new) ∷ rest else (k, value) ∷ insert key new rest
  insert key new [] = (key, new) ∷ []

  pub lookup-delete :
      (key other : K) (m : Map K V)
      → lookup other (delete key m) ≡ (if key == other then none else lookup other m)
  unfolding lookup delete
  lookup-delete key other ((k, value) ∷ rest) = ground (
    arith,
    lookup-delete key other rest,
    c.equals_iff k other,
    c.equals_iff k key,
    c.equals_iff key other,
  )
  lookup-delete key other [] = ground arith

  pub lookup-insert :
      (key other : K) (new : V) (m : Map K V)
      → lookup other (insert key new m) ≡ (if key == other then some new else lookup other m)
  unfolding lookup insert
  lookup-insert key other new ((k, value) ∷ rest) = ground (
    arith,
    lookup-insert key other new rest,
    c.equals_iff k other,
    c.equals_iff k key,
    c.equals_iff key other,
  )
  lookup-insert key other new [] = refl

  pub get_or-insert :
      (d : V) (key other : K) (new : V) (m : Map K V)
      → get_or d other (insert key new m) ≡ (if key == other then new else get_or d other m)
  unfolding get_or
  get_or-insert d key other new m = elim (Bool-cases (key == other)) [
    | inl same ↦ rw (get_or, lookup-insert key other new m, same) refl
    | inr different ↦ rw (get_or, lookup-insert key other new m, different) refl
  ]

  pub lookup-delete_self : (key : K) (m : Map K V) → lookup key (delete key m) ≡ none
  lookup-delete_self key m = simp (lookup-delete, beq_refl)

  pub lookup-insert_self :
      (key : K) (new : V) (m : Map K V) → lookup key (insert key new m) ≡ some new
  lookup-insert_self key new m = simp (lookup-insert, beq_refl)

-- A value that is read stands in the list beside its key.
pub lookup-In :
    {K V : Type 0} ⦃e : Comparable K⦄ (k : K) (v : V) (m : Map K V)
    → lookup k m ≡ some v
    → In (k, v) m
unfolding lookup
lookup-In k v [] h = cc
lookup-In ⦃e⦄ k v ((j, w) ∷ m) h = elim (Bool-cases (j == k)) [
  | inl same ↦
      let p : j ≡ k = (e.equals_iff j k).0 same in
      let q : w ≡ v = ground arith in inl (ap₂ (λ a b. (a, b)) p q)
  | inr other ↦ inr (lookup-In k v m (rw other at h))
]

-- An entry after an insertion is the inserted one, or was there.
pub In-insert :
    {K V : Type 0} ⦃e : Comparable K⦄ (k : K) (v : V) (m : Map K V) (j : K) (w : V)
    → In (j, w) (insert k v m)
    → ◌≡◌ {A = K × V} (k, v) (j, w) ⊎ In (j, w) m
unfolding insert
In-insert k v [] j w n = elim n [ inl p ↦ inl p | inr never ↦ absurd never ]
In-insert ⦃e⦄ k v ((i, u) ∷ m) j w n = elim (Bool-cases (i == k)) [
  | inl same ↦ elim (rw same at n) [ inl p ↦ inl p | inr old ↦ inr (inr old) ]
  | inr other ↦ elim (rw other at n) [
    | inl p ↦ inr (inl p)
    | inr later ↦ elim (In-insert k v m j w later) [ inl p ↦ inl p | inr old ↦ inr (inr old) ]
  ]
]

-- A key of an entry has a value.
pub In-lookup :
    {K V : Type 0} ⦃e : Comparable K⦄ (j : K) (w : V) (m : Map K V)
    → In (j, w) m
    → (v : V) × (lookup j m ≡ some v)
unfolding lookup
In-lookup j w [] n = absurd n
In-lookup ⦃e⦄ j w ((i, u) ∷ m) n = elim (Bool-cases (i == j)) [
  | inl same ↦ (u, rw same)
  | inr other ↦ elim n [
    | inl p ↦ absurd ((beq_ne i j).0 other (ap (λ t. t.0) p))
    | inr later ↦ let (v, found) = In-lookup j w m later in (v, rw other found)
  ]
]

-- What an insertion and a deletion leave of the keys.
module _ {ℓ} {K V : Type ℓ} ⦃c : Comparable K⦄ where
  pub has-insert :
      (key other : K) (new : V) (m : Map K V)
      → has other (insert key new m) ≡ (if key == other then true else has other m)
  unfolding has
  has-insert key other new m = elim (Bool-cases (key == other)) [
    | inl same ↦ rw (has, lookup-insert key other new m, same) refl
    | inr different ↦ rw (has, lookup-insert key other new m, different) refl
  ]

  pub has-delete :
      (key other : K) (m : Map K V)
      → has other (delete key m) ≡ (if key == other then false else has other m)
  unfolding has
  has-delete key other m = elim (Bool-cases (key == other)) [
    | inl same ↦ rw (has, lookup-delete key other m, same) refl
    | inr different ↦ rw (has, lookup-delete key other m, different) refl
  ]

  -- A key of the list is a key of the map.
  abbrev pub keys : Map K V → List K
  keys [] = []
  keys ((k, value) ∷ rest) = k ∷ keys rest

-- Each key has one entry, as in Go's maps.
unfoldable pub IsUnique {ℓ} : {K V : Type ℓ} → ⦃c : Comparable K⦄ → Map K V → Type 0
IsUnique [] = Unit
IsUnique ((k, value) ∷ rest) = (has k rest ≡ false) × IsUnique rest

pub has-nil {ℓ} :
    {K : Type ℓ} (V : Type ℓ) ⦃c : Comparable K⦄ (key : K) → has {V = V} key [] ≡ false
unfolding has lookup
has-nil V key = refl

module _ {ℓ} {K V : Type ℓ} ⦃c : Comparable K⦄ where
  pub insert-IsUnique : (key : K) (new : V) (m : Map K V) → IsUnique m → IsUnique (insert key new m)
  unfolding IsUnique insert
  insert-IsUnique key new [] u = (has-nil _ key, tt)
  insert-IsUnique key new ((k, value) ∷ rest) (fresh, u) = elim (Bool-cases (k == key)) [
    | inl same ↦ rw same (subst (λ x. has x rest ≡ false) ((c.equals_iff k key).0 same) fresh, u)
    | inr other ↦ rw other (
      rw (has-insert key k new rest)
          (ground (arith, fresh, c.equals_iff k key, c.equals_iff key k)),
      insert-IsUnique key new rest u,
    )
  ]

  pub delete-IsUnique : (key : K) (m : Map K V) → IsUnique m → IsUnique (delete key m)
  unfolding IsUnique delete
  delete-IsUnique key [] u = tt
  delete-IsUnique key ((k, value) ∷ rest) (fresh, u) = elim (Bool-cases (k == key)) [
    | inl same ↦ rw same (delete-IsUnique key rest u)
    | inr other ↦
        rw other (rw (has-delete key k rest) (ground (arith, fresh)), delete-IsUnique key rest u)
  ]

  pub has-lookup : (key : K) (m : Map K V) → has key m ≡ false → lookup key m ≡ none
  unfolding has
  has-lookup key m e = elim (Option-cases (lookup key m)) [
    | inl missing ↦ missing
    | inr (v, found) ↦ cc (rw (has, found) at e)
  ]
