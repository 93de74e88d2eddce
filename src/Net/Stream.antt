-- ===== src/Net/Stream.antt =====
-- What the reads of a connection take from the bytes that the peer sends.
use nps_socks.Prelude.{
  Text, ℕ, ◌∷◌, take, ◌<◌, ◌++◌, ◌≡◌, drop, length, Bool-cases, some, [], ◌==◌, suc, ap, arith, inl,
  zero, inr, leb, refl, sym, nat_eq, ◌∙◌, ==_iff, Option-cases, ◌-◌, length-append, ◌≤◌, leb→le,
  none,
}
use mathlib.Core.List.{append_assoc}
use nps_socks.Net.{Chunks, read, read_full}

-- All the bytes that the peer sends.
abbrev pub bytes : Chunks → Text
bytes [] = []
bytes (c ∷ cs) = c ++ bytes cs

take-drop : (n : ℕ) (s : Text) → take n s ++ drop n s ≡ s
take-drop zero s = refl
take-drop (suc n) [] = refl
take-drop (suc n) (x ∷ s) = ap (λ t. x ∷ t) (take-drop n s)

length-take : (n : ℕ) (s : Text) → n < length s → length (take n s) ≡ n
length-take zero s h = refl
length-take (suc n) [] h = absurd (omega arith)
length-take (suc n) (x ∷ s) h = ap suc (length-take n s (omega arith))

-- `c.Read` takes the first bytes and leaves the rest.
pub bytes-read : (n : ℕ) (cs : Chunks) → (read n cs).1 ++ bytes (read n cs).0 ≡ bytes cs
unfolding read
bytes-read n [] = refl
bytes-read n (c ∷ cs) = elim (Bool-cases (n == 0)) [
  | inl z ↦ rw z refl
  | inr nz ↦ elim (Bool-cases (leb (length c) n)) [
    | inl all ↦ rw (nz, all) refl
    | inr some_left ↦
        rw (nz, some_left)
          (sym (append_assoc (take n c) (drop n c) (bytes cs))
            ∙ ap (λ t. t ++ bytes cs) (take-drop n c))
  ]
]

pub length-read : (n : ℕ) (cs : Chunks) → length (read n cs).1 ≤ n
unfolding read
length-read n [] = omega arith
length-read n (c ∷ cs) = ground (arith, length-take n c)

-- A full read takes `n` bytes and leaves the rest.
pub bytes-read_full :
    (n : ℕ) (cs : Chunks) (s : Text)
    → (read_full n cs).1 ≡ some s
    → (s ++ bytes (read_full n cs).0 ≡ bytes cs) × (length s ≡ n)
unfolding read_full
bytes-read_full n [] s e = ground arith
bytes-read_full n (c ∷ cs) s e = elim (Bool-cases (n == 0)) [
  | inl z ↦ ground (arith, ==_iff n 0)
  | inr nz ↦ elim (Bool-cases (leb (length c) n)) [
    | inl all ↦ elim (Option-cases (read_full (n - length c) cs).1) [
      | inl short ↦ absurd (ground (arith, nz, all, short))
      | inr (t, hit) ↦
          let (same, len) = bytes-read_full (n - length c) cs t hit in
          ground (
            arith,
            nz,
            all,
            hit,
            same,
            len,
            length-append c t,
            append_assoc c t (bytes (read_full (n - length c) cs).0),
          )
    ]
    | inr some_left ↦ ground (
      arith,
      nz,
      some_left,
      length-take n c,
      take-drop n c,
      append_assoc (take n c) (drop n c) (bytes cs),
    )
  ]
]

-- A full read succeeds exactly when there are as many bytes.
pub read_full_enough :
    (n : ℕ) (cs : Chunks) → n ≤ length (bytes cs) → (s : Text) × ((read_full n cs).1 ≡ some s)
unfolding read_full
read_full_enough n [] h = ([], ground arith)
read_full_enough n (c ∷ cs) h = elim (Bool-cases (n == 0)) [
  | inl z ↦ ([], rw z refl)
  | inr nz ↦ elim (Bool-cases (leb (length c) n)) [
    | inl all ↦
        let (s, e) =
          read_full_enough (n - length c) cs
            (ground (arith, length-append c (bytes cs), leb→le (length c) n)) in
        (c ++ s, rw (nz, all, e) refl)
    | inr some_left ↦ (take n c, rw (nz, some_left) refl)
  ]
]

pub read_full_short : (n : ℕ) (cs : Chunks) → length (bytes cs) < n → (read_full n cs).1 ≡ none
read_full_short n cs h = elim (Option-cases (read_full n cs).1) [
  | inl short ↦ short
  | inr (s, hit) ↦
      let (same, len) = bytes-read_full n cs s hit in
      absurd (omega (arith, ap length same, len, length-append s (bytes (read_full n cs).0)))
]

pub append_inj : (a b c d : Text) → length a ≡ length b → a ++ c ≡ b ++ d → (a ≡ b) × (c ≡ d)
append_inj [] [] c d len e = (refl, e)
append_inj [] (y ∷ b) c d len e = absurd (omega (arith, len))
append_inj (x ∷ a) [] c d len e = absurd (omega (arith, len))
append_inj (x ∷ a) (y ∷ b) c d len e = ground (arith, append_inj a b c d (omega (arith, len)))

-- However the bytes are cut into chunks, a full read of the length of their beginning gives that
-- beginning and leaves the rest.
pub read_full_front :
    (s rest : Text) (cs : Chunks)
    → bytes cs ≡ s ++ rest
    → ((read_full (length s) cs).1 ≡ some s) × (bytes (read_full (length s) cs).0 ≡ rest)
read_full_front s rest cs e =
    let (t, hit) =
      read_full_enough (length s) cs (omega (arith, ap length e, length-append s rest)) in
    let (same, len) = bytes-read_full (length s) cs t hit in
    let (front, back) = append_inj t s (bytes (read_full (length s) cs).0) rest len (same ∙ e) in
    (hit ∙ ap some front, back)

-- A full read, also one that fails, leaves no more than there was.
pub length-read_full : (n : ℕ) (cs : Chunks) → length (bytes (read_full n cs).0) ≤ length (bytes cs)
unfolding read_full
length-read_full n [] = omega arith
length-read_full n (c ∷ cs) = elim (Bool-cases (n == 0)) [
  | inl z ↦ rw z (omega arith)
  | inr nz ↦ elim (Bool-cases (leb (length c) n)) [
    | inl all ↦
        rw (nz, all) (omega (arith, length-read_full (n - length c) cs, length-append c (bytes cs)))
    | inr some_left ↦
        rw (nz, some_left)
          (omega (
            arith,
            length-append c (bytes cs),
            length-append (drop n c) (bytes cs),
            length-append (take n c) (drop n c),
            ap length (take-drop n c),
          ))
  ]
]
