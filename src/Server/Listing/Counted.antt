-- ===== src/Server/Listing/Counted.antt =====
-- server/server.go: how many tunnels a list counts.
use nps_socks.Server.Listing.{
  insert_by, sort_by, sorted_by, less_by, get_map_keys, shown, get_tunnel, lists_tunnel,
  finds_tunnel,
}
use nps_socks.Server.Stopping.{HasIds}
use nps_socks.Server.{Server}
use nps_socks.Bridge.{Bridge}
use nps_socks.File.Listing.{loaded}
use nps_socks.File.Obj.{Tunnel}
use nps_socks.File.Paging.{first_page}
use nps_socks.File.Paging.Exact.{cnt-turn_pages}
use nps_socks.SyncMap.{Table, load, keys, values, Distinct}
use nps_socks.Prelude.{
  ℤ, ℕ, Text, Option, List, Bool, none, some, true, false, [], ◌∷◌, ◌&&◌, ◌==◌, ==_iff, int_eq,
  if◌then◌else◌, select, map, length, ltb_ℤ, ◌+◌, ◌≡◌, refl, ◌∙◌, ap, arith, Bool-cases,
  Option-cases, inl, inr, codes, text_eq,
}

-- The sum over a list.
abbrev total {ℓ} : {A : Type ℓ} → (A → ℕ) → List A → ℕ
total w [] = 0
total w (x ∷ xs) = w x + total w xs

module _ {ℓ} {A : Type ℓ} (w : A → ℕ) (less : A → A → Bool) where
  total-insert : (x : A) (xs : List A) → total w (insert_by less x xs) ≡ w x + total w xs
  total-insert x [] = refl
  total-insert x (y ∷ ys) = ground (arith, total-insert x ys)

  total-sort : (xs : List A) → total w (sort_by less xs) ≡ total w xs
  total-sort [] = refl
  total-sort (x ∷ xs) = omega (arith, total-insert x (sort_by less xs), total-sort xs)

total-sorted_by :
    (w : Tunnel → ℕ) (o : Option (Tunnel → Tunnel → Bool)) (asc : Bool) (vs : List Tunnel)
    → total w (sorted_by o asc vs) ≡ total w vs
total-sorted_by w none asc vs = refl
total-sorted_by w (some less) true vs = total-sort w less vs
total-sorted_by w (some less) false vs = total-sort w (λ v u. less u v) vs

-- Whether what is found counts.
abbrev weight {ℓ} : {V : Type ℓ} → (V → Bool) → Option V → ℕ
weight q none = 0
weight q (some v) = if q v then 1 else 0

zero_add : (n : ℕ) → 0 + n ≡ n
zero_add n = omega arith

other_way : (k j : ℤ) → (j == k) ≡ false → (k == j) ≡ false
other_way k j e = ground (arith, e, ==_iff j k, ==_iff k j)

itself : (k : ℤ) → (k == k) ≡ true
itself k = ground (arith, ==_iff k k)

module _ {V : Type 0} (q : V → Bool) where
  length-loaded :
      (ks : List ℤ) (m : Table V)
      → length (select q (loaded ks m)) ≡ total (λ k. weight q (load k m)) ks
  length-loaded [] m = refl
  length-loaded (k ∷ ks) m = elim (Option-cases (load k m)) [
    | inl absent ↦ rw absent (ground (arith, length-loaded ks m))
    | inr (v, at) ↦ rw at (ground (arith, length-loaded ks m))
  ]

  total-map :
      {B : Type 0} (f : B → ℤ) (w : ℤ → ℕ) (xs : List B)
      → total w (map f xs) ≡ total (λ x. w (f x)) xs
  total-map f w [] = refl
  total-map f w (x ∷ xs) = ap (λ n. w (f x) + n) (total-map f w xs)

  -- A key that no entry has changes nothing.
  total-skip :
      (k : ℤ) (v : V) (m n : Table V)
      → load k n ≡ none
      → total (λ j. weight q (load j ((k, v) ∷ m))) (keys n)
        ≡ total (λ j. weight q (load j m)) (keys n)
  unfolding load
  total-skip k v m [] e = refl
  total-skip k v m ((j, u) ∷ n) e = elim (Bool-cases (j == k)) [
    | inl same ↦ absurd (ground (arith, rw same at e))
    | inr other ↦
        rw (other_way k j other)
          (ap (λ x. weight q (load j m) + x) (total-skip k v m n (rw other at e)))
  ]

  total-keys :
      (m : Table V)
      → Distinct m
      → total (λ k. weight q (load k m)) (keys m) ≡ length (select q (values m))
  unfolding load
  total-keys [] d = refl
  total-keys ((k, v) ∷ m) (new, d) =
      rw (itself k, total-skip k v m m new) (ground (arith, total-keys m d))

-- What is listed counts once for each key, if the search finds only what is listed.
total-select :
    (p q : Tunnel → Bool) (m : Table Tunnel) (ks : List ℤ)
    → ((k : ℤ) (t : Tunnel) → load k m ≡ some t → t.id ≡ k)
    → total (λ v. weight (λ v. p v && q v) (load v.id m)) (select p (loaded ks m))
      ≡ total (λ k. weight (λ v. p v && q v) (load k m)) ks
total-select p q m [] ids = refl
total-select p q m (k ∷ ks) ids = elim (Option-cases (load k m)) [
  | inl absent ↦ rw absent (ground (arith, total-select p q m ks ids))
  | inr (v, at) ↦ elim (Bool-cases (p v)) [
    | inl listed ↦
        let again = ap (λ j. load j m) (ids k v at) ∙ at in
        ground (arith, at, again, listed, total-select p q m ks ids)
    | inr not_listed ↦ rw (at, not_listed) (ground (arith, total-select p q m ks ids))
  ]
]

-- Every tunnel of the table that is of the type and the client asked for, and that the search finds, counts
-- once, however the list is sorted and whichever page is shown.
pub get_tunnel-select :
    (bridge : Bridge) (start room : ℤ) (type_val : Text) (client_id : ℤ)
    (search sort_field order : Text) (s : Server)
    → HasIds s
    → Distinct s.db.tasks
    → (get_tunnel bridge start room type_val client_id search sort_field order s).1.1
      ≡ length (
          select
            (λ v. lists_tunnel type_val client_id v && finds_tunnel search v)
            (values s.db.tasks))
unfolding get_tunnel shown
get_tunnel-select bridge start room type_val client_id search sort_field order s ids d =
    let m = s.db.tasks in
    let p = lists_tunnel type_val client_id in
    let q = finds_tunnel search in
    let w = λ (k : ℤ). weight (λ v. p v && q v) (load k m) in
    let o = less_by sort_field in
    let asc = order == codes "asc" in
    let all = select p (loaded (get_map_keys m) m) in
    let vs = shown type_val client_id search sort_field order s.db in
    cnt-turn_pages vs (first_page start room)
    ∙ (zero_add (length vs)
        ∙ (length-loaded (λ v. p v && q v) (map (λ v. v.id) (sorted_by o asc all)) m
            ∙ (total-map (λ v. p v && q v) (λ v. v.id) w (sorted_by o asc all)
                ∙ (total-sorted_by (λ v. w v.id) o asc all
                    ∙ (total-select p q m (get_map_keys m) ids
                        ∙ (total-sort w ltb_ℤ (keys m) ∙ total-keys (λ v. p v && q v) m d))))))
