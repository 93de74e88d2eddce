-- ===== src/File/Targets/Turns.antt =====
-- `GetRandomTarget` of lib/file/obj.go never panics, and gives every target its turn.
use nps_socks.File.Obj.{Target}
use nps_socks.File.Targets.{Pick, picked, all_offline, targets, next_index, get_random_target}
use nps_socks.Prelude.{
  ◌⊎◌, inl, inr, ◌<◌, ltb, ℕ, zero, suc, ◌+◌, ◌-◌, ◌≤◌, ◌<◌, ◌≡◌, refl, ap, some, List, [], ◌∷◌, ℤ,
  pos, negsuc, neg_part, ◌-ℤ◌, ◌+ℤ◌, leb_ℤ, Text, length, get_elem?, if◌then◌else◌, arith, ltb,
}

element_in_range :
    (arr : List Text) (i : ℕ) → i < length arr → (x : Text) × (get_elem? arr i ≡ some x)
element_in_range [] i h = elim h [ ]
element_in_range (x ∷ arr) zero h = (x, refl)
element_in_range (x ∷ arr) (suc i) h = element_in_range arr i (omega arith)

-- The index that follows `now` among `n` targets.
abbrev after : ℕ → ℤ → ℕ
after n (negsuc i) = 0
after n (pos i) = if leb_ℤ (pos n) (pos (i + 1)) then 0 else i + 1

after-lt : (n : ℕ) (now : ℤ) → 0 < n → after n now < n
after-lt n (negsuc i) h = h
after-lt n (pos i) h = ground arith

next_index-after :
    (now : ℤ) (arr : List Text)
    → neg_part now ≤ 1
    → 0 < length arr
    → next_index now arr ≡ pos (after (length arr) now)
unfolding ◌-ℤ◌ ◌+ℤ◌
next_index-after (negsuc i) arr h k = ground arith
next_index-after (pos i) arr h k = ground arith

pick_of :
    (arr : List Text) (s : Target)
    → targets s ≡ arr
    → neg_part s.now_index ≤ 1
    → 1 < length arr
    → (x : Text) × (get_elem? arr (after (length arr) s.now_index) ≡ some x)
      × (get_random_target s ≡ (
        record s { target_arr = some arr; now_index = pos (after (length arr) s.now_index) },
        picked x,
      ))
unfolding get_random_target
pick_of [] s e h k = elim k [ ]
pick_of (x ∷ []) s e h k = absurd (omega arith)
pick_of (x ∷ y ∷ rest) s e h k =
    let arr = x ∷ y ∷ rest in
    let i = after (length arr) s.now_index in
    let (t, at) = element_in_range arr i (after-lt (length arr) s.now_index (omega arith)) in
    (t, at, ground (arith, next_index-after s.now_index arr h, at))

-- One of the targets, or none at all.
abbrev IsFair : List Text → Pick → Type 0
IsFair arr r =
    ((arr ≡ []) × (r ≡ all_offline))
    ⊎ ((i : ℕ) × (x : Text) × (get_elem? arr i ≡ some x) × (r ≡ picked x))

IsFair-among :
    (arr : List Text) (s : Target)
    → targets s ≡ arr
    → neg_part s.now_index ≤ 1
    → IsFair arr (get_random_target s).1
unfolding get_random_target
IsFair-among [] s e h = inl (refl, ground arith)
IsFair-among (x ∷ []) s e h = inr (0, x, refl, ground arith)
IsFair-among (x ∷ y ∷ rest) s e h =
    let (t, at, r) = pick_of (x ∷ y ∷ rest) s e h (omega arith) in
    inr (after (length (x ∷ y ∷ rest)) s.now_index, t, at, ap (λ p. p.1) r)

-- With an index of at least -1, the call reports that all targets are offline exactly when there
-- is none, and otherwise returns one of them; it never panics.
pub get_random_target_total :
    (s : Target)
    → neg_part s.now_index ≤ 1
    → ((targets s ≡ []) × ((get_random_target s).1 ≡ all_offline))
      ⊎ ((i : ℕ) × (x : Text) × (get_elem? (targets s) i ≡ some x)
          × ((get_random_target s).1 ≡ picked x))
get_random_target_total s h = IsFair-among (targets s) s refl h

-- The state after `k` calls.
unfoldable pub calls : ℕ → Target → Target
calls zero s = s
calls (suc k) s = calls k (get_random_target s).0

-- After `k` calls the index has moved on by `k`, around the targets.
turned : ℕ → ℕ → ℕ → ℕ
turned n i k = if ltb (i + k) n then i + k else i + k - n

-- From index `i` of `arr`, `k` calls with `k` at most the number of targets.
calls_index :
    (arr : List Text) (k i : ℕ) (s : Target)
    → s.target_arr ≡ some arr
    → s.now_index ≡ pos i
    → 1 < length arr
    → i < length arr
    → k ≤ length arr
    → ((calls k s).now_index ≡ pos (turned (length arr) i k)) × ((calls k s).target_arr ≡ some arr)
unfolding calls turned
calls_index arr zero i s e p many inside few = (ground arith, e)
calls_index arr (suc k) i s e p many inside few =
    let (t, at, r) = pick_of arr s (ground arith) (ground arith) many in
    let (q, same) =
      calls_index arr k (after (length arr) (pos i)) (get_random_target s).0 (ground arith)
        (ground arith) many (after-lt (length arr) (pos i) (omega arith)) (omega arith) in
    (ground arith, same)

-- The number of calls between index `i` and the turn of target `j`.
abbrev wait_for : ℕ → ℕ → ℕ → ℕ
wait_for n i j = if ltb i j then j - i - 1 else j + n - i - 1

turn_of :
    (n i j : ℕ)
    → i < n
    → j < n
    → (wait_for n i j < n) × (after n (pos (turned n i (wait_for n i j))) ≡ j)
unfolding turned
turn_of n i j hi hj = ground arith

-- With two targets or more and the index on one of them, every target `j` is returned by one of
-- the next calls, as many as there are targets.
pub get_random_target_fair :
    (arr : List Text) (i j : ℕ) (s : Target)
    → s.target_arr ≡ some arr
    → s.now_index ≡ pos i
    → 1 < length arr
    → i < length arr
    → j < length arr
    → (k : ℕ) × (x : Text) × (k < length arr)
      × (get_elem? arr j ≡ some x)
      × ((get_random_target (calls k s)).1 ≡ picked x)
get_random_target_fair arr i j s e p many hi hj =
    let k = wait_for (length arr) i j in
    let (soon, there) = turn_of (length arr) i j hi hj in
    let (q, same) = calls_index arr k i s e p many hi (omega arith) in
    let (x, at, r) = pick_of arr (calls k s) (ground arith) (ground arith) many in
    (k, x, soon, ground arith, ap (λ c. c.1) r)
