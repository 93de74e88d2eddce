-- ===== src/SyncMap.antt =====
-- Go's `sync.Map` with integer keys, as the program uses it: Load, Store, Delete and Range. `Range`
-- visits the entries in the order of the list, which stands for whichever order Go happens to take.
use nps_socks.Prelude.{
  All, Bool-cases, inl, inr, ◌∙◌, ◌≡◌, refl, Bool, false, Option, none, some, List, [], ◌∷◌, map, ℤ,
  int_eq, ◌==◌, ==_iff, arith, any, if◌then◌else◌,
}

abbrev pub Table {ℓ} : Type ℓ → Type ℓ
Table V = List (ℤ × V)

module _ {ℓ} {V : Type ℓ} where
  unfoldable pub load : ℤ → Table V → Option V
  load key [] = none
  load key ((k, value) ∷ rest) = if k == key then some value else load key rest

  unfoldable pub store : ℤ → V → Table V → Table V
  store key new [] = (key, new) ∷ []
  store key new ((k, old) ∷ rest) =
      if k == key then (key, new) ∷ rest else (k, old) ∷ store key new rest

  unfoldable pub delete : ℤ → Table V → Table V
  delete key [] = []
  delete key ((k, value) ∷ rest) =
      let others = delete key rest in if k == key then others else (k, value) ∷ others

  -- A `Range` that changes each value where it stands.
  abbrev pub each_value : (V → V) → Table V → Table V
  each_value f [] = []
  each_value f ((k, v) ∷ m) = (k, f v) ∷ each_value f m

  -- the values, in the order of `Range`
  abbrev pub values : Table V → List V
  values = map (λ e. e.1)

  abbrev pub keys : Table V → List ℤ
  keys = map (λ e. e.0)

  pub load-store :
      (k j : ℤ) (v : V) (m : Table V) → load j (store k v m) ≡ (if k == j then some v else load j m)
  unfolding load store
  load-store k j v [] = refl
  load-store k j v ((i, old) ∷ rest) =
      let ih = load-store k j v rest in ground (arith, ih, ==_iff i k, ==_iff i j, ==_iff k j)

  pub load-delete :
      (k j : ℤ) (m : Table V) → load j (delete k m) ≡ (if k == j then none else load j m)
  unfolding load delete
  load-delete k j [] = ground arith
  load-delete k j ((i, w) ∷ m) =
      ground (arith, ==_iff k j, ==_iff i k, ==_iff i j, load-delete k j m)

  -- What no entry passes, no loaded value passes.
  pub any-values-load :
      (p : V → Bool) (k : ℤ) (v : V) (m : Table V)
      → any p (values m) ≡ false
      → load k m ≡ some v
      → p v ≡ false
  unfolding load
  any-values-load p k v [] h e = ground arith
  any-values-load p k v ((j, w) ∷ m) h e = ground (arith, any-values-load p k v m)

  -- Every value has its key as its id.
  abbrev pub Keyed : (V → ℤ) → Table V → Type 0
  Keyed id = All (λ e. id e.1 ≡ e.0)

  -- No key stands twice.
  abbrev pub Distinct : Table V → Type ℓ
  Distinct [] = Unit
  Distinct ((k, v) ∷ m) = (load k m ≡ none) × Distinct m

module _ {ℓ} {V : Type ℓ} where
  pub store-Keyed :
      (id : V → ℤ) (k : ℤ) (v : V) (m : Table V) → id v ≡ k → Keyed id m → Keyed id (store k v m)
  unfolding store
  store-Keyed id k v [] e h = (e, tt)
  store-Keyed id k v ((j, w) ∷ m) e h = elim (Bool-cases (j == k)) [
    | inl same ↦ rw same (e, h.1)
    | inr other ↦ rw other (h.0, store-Keyed id k v m e h.1)
  ]

  pub store-Distinct : (k : ℤ) (v : V) (m : Table V) → Distinct m → Distinct (store k v m)
  unfolding store load
  store-Distinct k v [] h = (refl, tt)
  store-Distinct k v ((j, w) ∷ m) h = elim (Bool-cases (j == k)) [
    | inl same ↦ rw same (rw (← (==_iff j k).0 same) h.0, h.1)
    | inr other ↦
        rw other (
          load-store k j v m ∙ ground (arith, ==_iff k j, ==_iff j k, h.0),
          store-Distinct k v m h.1,
        )
  ]

  -- In a keyed table what is loaded has the key as its id.
  pub id-load :
      (id : V → ℤ) (k : ℤ) (v : V) (m : Table V) → Keyed id m → load k m ≡ some v → id v ≡ k
  unfolding load
  id-load id k v [] h e = cc
  id-load id k v ((j, w) ∷ m) h e = ground (arith, ==_iff j k, h.0, id-load id k v m h.1)

module _ {ℓ} {V : Type ℓ} where
  pub delete-Distinct : (k : ℤ) (m : Table V) → Distinct m → Distinct (delete k m)
  unfolding delete
  delete-Distinct k [] h = tt
  delete-Distinct k ((j, v) ∷ m) h = elim (Bool-cases (j == k)) [
    | inl same ↦ rw same (delete-Distinct k m h.1)
    | inr other ↦
        rw other
          (load-delete k j m ∙ ground (arith, h.0, ==_iff k j, ==_iff j k), delete-Distinct k m h.1)
  ]
