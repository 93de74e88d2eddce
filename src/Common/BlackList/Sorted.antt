-- ===== src/Common/BlackList/Sorted.antt =====
-- lib/common/util.go: looking a string up in the sorted list finds it exactly when it is in the list.
use nps_socks.Common.BlackList.{lt_text, insert_text, sort_strings, search_strings, stands, in_list}
use nps_socks.Common.Arrays.{in_str_arr}
use nps_socks.Prelude.{
  Text, List, All, ◌≡◌, refl, true, false, ◌==◌, ◌||◌, ==_iff, text_eq, arith, Bool-cases, inl, inr,
  get_elem?, ◌∙◌, sym, ap, ◌∷◌, [],
}

-- The order of strings is total.
lt_text-total : (a b : Text) → lt_text a b ≡ false → lt_text b a ≡ false → a ≡ b
unfolding lt_text
lt_text-total [] [] h g = refl
lt_text-total [] (y ∷ b) h g = ground arith
lt_text-total (x ∷ a) [] h g = ground arith
lt_text-total (x ∷ a) (y ∷ b) h g = ground (arith, lt_text-total a b)

lt_text-asymm : (a b : Text) → lt_text a b ≡ true → lt_text b a ≡ false
unfolding lt_text
lt_text-asymm [] [] h = ground arith
lt_text-asymm [] (y ∷ b) h = ground arith
lt_text-asymm (x ∷ a) [] h = ground arith
lt_text-asymm (x ∷ a) (y ∷ b) h = ground (arith, lt_text-asymm a b)

lt_text-trans_not : (a b c : Text) → lt_text a b ≡ false → lt_text b c ≡ false → lt_text a c ≡ false
unfolding lt_text
lt_text-trans_not a b [] h g = ground arith
lt_text-trans_not a [] (z ∷ c) h g = ground arith
lt_text-trans_not [] (y ∷ b) (z ∷ c) h g = ground arith
lt_text-trans_not (x ∷ a) (y ∷ b) (z ∷ c) h g = ground (arith, lt_text-trans_not a b c)

-- Nothing in the list is below the string.
abbrev IsLeast : Text → List Text → Type 0
IsLeast x = All (λ y. lt_text y x ≡ false)

abbrev pub IsSorted : List Text → Type 0
IsSorted [] = Unit
IsSorted (x ∷ xs) = IsLeast x xs × IsSorted xs

IsLeast-insert :
    (x y : Text) (ys : List Text)
    → lt_text x y ≡ false
    → IsLeast y ys
    → IsLeast y (insert_text x ys)
unfolding insert_text
IsLeast-insert x y [] h g = (h, tt)
IsLeast-insert x y (z ∷ ys) h g = elim (Bool-cases (lt_text z x)) [
  | inl below ↦ rw below (g.0, IsLeast-insert x y ys h g.1)
  | inr not_below ↦ rw not_below (h, g)
]

IsLeast-trans : (x y : Text) (ys : List Text) → lt_text y x ≡ false → IsLeast y ys → IsLeast x ys
IsLeast-trans x y [] h g = tt
IsLeast-trans x y (z ∷ ys) h g = (lt_text-trans_not z y x g.0 h, IsLeast-trans x y ys h g.1)

insert_text-IsSorted : (x : Text) (xs : List Text) → IsSorted xs → IsSorted (insert_text x xs)
unfolding insert_text
insert_text-IsSorted x [] h = (tt, tt)
insert_text-IsSorted x (y ∷ ys) h = elim (Bool-cases (lt_text y x)) [
  | inl below ↦
      rw below (IsLeast-insert x y ys (lt_text-asymm y x below) h.0, insert_text-IsSorted x ys h.1)
  | inr not_below ↦ rw not_below ((not_below, IsLeast-trans x y ys not_below h.0), h)
]

pub sort_strings-IsSorted : (xs : List Text) → IsSorted (sort_strings xs)
unfolding sort_strings
sort_strings-IsSorted [] = tt
sort_strings-IsSorted (x ∷ xs) = insert_text-IsSorted x (sort_strings xs) (sort_strings-IsSorted xs)

in_str_arr-insert :
    (x t : Text) (xs : List Text) → in_str_arr (insert_text x xs) t ≡ (x == t || in_str_arr xs t)
unfolding insert_text in_str_arr
in_str_arr-insert x t [] = refl
in_str_arr-insert x t (y ∷ ys) = ground (arith, in_str_arr-insert x t ys)

pub in_str_arr-sort : (t : Text) (xs : List Text) → in_str_arr (sort_strings xs) t ≡ in_str_arr xs t
unfolding sort_strings in_str_arr
in_str_arr-sort t [] = refl
in_str_arr-sort t (x ∷ xs) =
    in_str_arr-insert x t (sort_strings xs) ∙ ap (λ b. x == t || b) (in_str_arr-sort t xs)

-- A string below the least is not in the list.
in_str_arr-IsLeast :
    (x t : Text) (xs : List Text) → lt_text t x ≡ true → IsLeast x xs → in_str_arr xs t ≡ false
unfolding in_str_arr
in_str_arr-IsLeast x t [] h g = refl
in_str_arr-IsLeast x t (y ∷ ys) h g = elim (Bool-cases (y == t)) [
  | inl same ↦ absurd (ground (arith, h, g.0, ap (λ z. lt_text z x) ((==_iff y t).0 same)))
  | inr other ↦ rw other (in_str_arr-IsLeast x t ys h g.1)
]

other_below : (x t : Text) → lt_text x t ≡ true → (x == t) ≡ false
other_below x t below = elim (Bool-cases (x == t)) [
  | inr other ↦ other
  | inl same ↦
      let e = (==_iff x t).0 same in
      absurd (
        ground
          (arith, below, lt_text-asymm x t below, ap (λ z. lt_text z t) e, ap (λ z. lt_text t z) e))
]

above : (x t : Text) → lt_text x t ≡ false → (x == t) ≡ false → lt_text t x ≡ true
above x t not_below other = elim (Bool-cases (lt_text t x)) [
  | inl less ↦ less
  | inr not_less ↦ absurd (ground (arith, other, ==_iff x t, lt_text-total x t not_below not_less))
]

search_strings-in_str_arr :
    (t : Text) (xs : List Text)
    → IsSorted xs
    → stands t (get_elem? xs (search_strings xs t)) ≡ in_str_arr xs t
unfolding search_strings in_str_arr
search_strings-in_str_arr t [] h = refl
search_strings-in_str_arr t (x ∷ xs) h = elim (Bool-cases (lt_text x t)) [
  | inl below ↦ rw (below, other_below x t below) (search_strings-in_str_arr t xs h.1)
  | inr not_below ↦ elim (Bool-cases (x == t)) [
    | inl same ↦ rw (not_below, same) refl
    | inr other ↦
        rw (not_below, other) (sym (in_str_arr-IsLeast x t xs (above x t not_below other) h.0))
  ]
]

-- The search by halving in the sorted list says whether a string is one of the list, as one look at each
-- of them would.
pub in_list-in_str_arr : (t : Text) (xs : List Text) → (in_list t xs).1 ≡ in_str_arr xs t
unfolding in_list
in_list-in_str_arr t xs =
    search_strings-in_str_arr t (sort_strings xs) (sort_strings-IsSorted xs) ∙ in_str_arr-sort t xs
