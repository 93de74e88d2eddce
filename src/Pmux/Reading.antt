-- ===== src/Pmux/Reading.antt =====
-- lib/pmux/pmux.go: the lines that are read ahead of an HTTP request, however its bytes are cut.
use nps_socks.Pmux.{
  Reader, Sliced, line, read_slice, read_line, cut_line, cut, full_buffer, buffer_size, drop_end,
  crlf,
}
use nps_socks.Net.{Chunks}
use nps_socks.Net.Stream.{bytes}
use nps_socks.Prelude.{
  Text, ℕ, ◌==◌, ◌+◌, ◌-◌, ◌≤◌, ◌<◌, ◌≡◌, any, length, length-append, take, drop, leb, none, some,
  false, inl, inr, ◌⊎◌, Bool-cases, arith, refl, sym, ap, ◌∙◌, ◌++◌, ◌∷◌, suc, nat_eq, [], zero,
  reverse,
}
use mathlib.Core.List.{append_assoc, reverse-append, reverse-reverse}

-- No line feed.
abbrev pub IsLine : Text → Type 0
IsLine p = any (λ c. c == 10) p ≡ false

-- What is still to be read.
abbrev pub pending : Reader → Text
pending r = r.buffered ++ bytes r.rest

-- Where the line feed of a text stands that is cut in two.
split_at :
    (buf t p rest : Text)
    → buf ++ t ≡ p ++ (10 ∷ rest)
    → ((r : Text) × (buf ≡ p ++ (10 ∷ r)) × (r ++ t ≡ rest))
      ⊎ ((q : Text) × (p ≡ buf ++ q) × (t ≡ q ++ (10 ∷ rest)))
split_at [] t p rest e = inr (p, refl, e)
split_at (x ∷ buf) t [] rest e = inl (buf, ground (arith, e), ground (arith, e))
split_at (x ∷ buf) t (y ∷ p) rest e = elim (split_at buf t p rest (ground (arith, e))) [
  | inl (r, front, back) ↦ inl (r, ground (arith, e, front), back)
  | inr (q, front, back) ↦ inr (q, ground (arith, e, front), back)
]

IsLine-append : (p q : Text) → IsLine (p ++ q) → IsLine p
IsLine-append [] q h = refl
IsLine-append (x ∷ p) q h = ground (arith, h, IsLine-append p q)

cut_line-IsLine : (p : Text) → IsLine p → cut_line p ≡ none
cut_line-IsLine [] h = refl
cut_line-IsLine (x ∷ p) h = ground (arith, h, cut_line-IsLine p)

cut_line-append : (p r : Text) → IsLine p → cut_line (p ++ (10 ∷ r)) ≡ some (p ++ (10 ∷ []), r)
cut_line-append [] r h = ground arith
cut_line-append (x ∷ p) r h = ground (arith, h, cut_line-append p r)

append-take-drop : (n : ℕ) (c : Text) → take n c ++ drop n c ≡ c
append-take-drop zero c = refl
append-take-drop (suc n) [] = refl
append-take-drop (suc n) (x ∷ c) = ap (λ t. x ∷ t) (append-take-drop n c)

length-take_most : (n : ℕ) (c : Text) → n ≤ length c → length (take n c) ≡ n
length-take_most zero c h = refl
length-take_most (suc n) [] h = absurd (omega arith)
length-take_most (suc n) (x ∷ c) h = ap suc (length-take_most n c (omega arith))

-- A line that was cut.
record IsCut (p rest : Text) (s : Sliced) : Type 0 where
  slice : s.slice ≡ p ++ (10 ∷ [])
  end : s.end ≡ line
  left : pending s.reader ≡ rest

cut-IsCut :
    (p r rest buf : Text) (cs : Chunks) (otherwise : Sliced)
    → IsLine p
    → buf ≡ p ++ (10 ∷ r)
    → r ++ bytes cs ≡ rest
    → IsCut p rest (cut (cut_line buf) cs otherwise)
cut-IsCut p r rest buf cs otherwise h front back =
    rw (front, cut_line-append p r h) (record { slice = refl; end = refl; left = back })

-- A chunk that does not fit fills the buffer, in which the line feed then is.
over-IsCut :
    (buf c p rest : Text) (cs : Chunks)
    → buf ++ (c ++ bytes cs) ≡ p ++ (10 ∷ rest)
    → IsLine p
    → length p < buffer_size
    → buffer_size - length buf < length c
    → length buf < buffer_size
    → let room = buffer_size - length buf in
      let whole = buf ++ take room c in
      IsCut p rest (cut (cut_line whole) (drop room c ∷ cs) (full_buffer whole (drop room c ∷ cs)))
over-IsCut buf c p rest cs e h short over fits =
    let room = buffer_size - length buf in
    let whole = buf ++ take room c in
    let split : whole ++ (drop room c ++ bytes cs) ≡ p ++ (10 ∷ rest) =
      append_assoc buf (take room c) (drop room c ++ bytes cs)
      ∙ (ap (λ t. buf ++ t)
            (sym (append_assoc (take room c) (drop room c) (bytes cs))
              ∙ ap (λ t. t ++ bytes cs) (append-take-drop room c))
          ∙ e) in
    let size : length whole ≡ buffer_size =
      omega (arith, length-append buf (take room c), length-take_most room c (omega arith)) in
    elim (split_at whole (drop room c ++ bytes cs) p rest split) [
      | inl (r, front, back) ↦
          cut-IsCut p r rest whole (drop room c ∷ cs) (full_buffer whole (drop room c ∷ cs)) h front
            back
      | inr (q, front, back) ↦
          absurd (omega (arith, ap length front, length-append whole q, size, short))
    ]

-- `ReadSlice` finds the line feed if the line fits into the buffer.
read_slice-IsCut :
    (buf p rest : Text) (cs : Chunks)
    → buf ++ bytes cs ≡ p ++ (10 ∷ rest)
    → IsLine p
    → length p < buffer_size
    → IsCut p rest (read_slice buf cs)
unfolding read_slice
read_slice-IsCut buf p rest [] e h short = elim (split_at buf [] p rest e) [
  | inl (r, front, back) ↦ cut-IsCut p r rest buf [] _ h front back
  | inr (q, front, back) ↦ absurd (omega (arith, ap length back, length-append q (10 ∷ rest)))
]
read_slice-IsCut buf p rest (c ∷ cs) e h short = elim (split_at buf (c ++ bytes cs) p rest e) [
  | inl (r, front, back) ↦ cut-IsCut p r rest buf (c ∷ cs) _ h front back
  | inr (q, front, back) ↦
      let none_yet = cut_line-IsLine buf (IsLine-append buf q (rw (← front) h)) in
      let fits : leb buffer_size (length buf) ≡ false =
        ground (arith, ap length front, length-append buf q, short) in
      elim (Bool-cases (leb (length c) (buffer_size - length buf))) [
        | inl whole ↦
            rw (none_yet, fits, whole)
              (read_slice-IsCut (buf ++ c) p rest cs (append_assoc buf c (bytes cs) ∙ e) h short)
        | inr over ↦
            rw (none_yet, fits, over)
              (over-IsCut buf c p rest cs e h short (ground (arith, over)) (ground (arith, fits)))
      ]
]

IsLine-cr : (l : Text) → IsLine l → IsLine (l ++ (13 ∷ []))
IsLine-cr [] h = refl
IsLine-cr (x ∷ l) h = ground (arith, h, IsLine-cr l)

drop_end-crlf : (l : Text) → drop_end (reverse ((l ++ (13 ∷ [])) ++ (10 ∷ []))) ≡ l
drop_end-crlf l = simp (reverse-append, reverse-reverse)

-- A line that ends with a carriage return and a line feed is read without them, if it fits into the
-- buffer, and nothing behind it is lost.
pub read_line-crlf :
    (r : Reader) (l rest : Text)
    → pending r ≡ l ++ (crlf ++ rest)
    → IsLine l
    → length l + 2 ≤ buffer_size
    → ((read_line r).1 ≡ some l) × (pending (read_line r).0 ≡ rest)
unfolding read_line
read_line-crlf r l rest e h short =
    let p = l ++ (13 ∷ []) in
    let found =
      read_slice-IsCut r.buffered p rest r.rest (e ∙ sym (append_assoc l (13 ∷ []) (10 ∷ rest)))
        (IsLine-cr l h) (omega (arith, length-append l (13 ∷ []))) in
    rw (read_line, found.end, found.slice) (ap some (drop_end-crlf l), found.left)
