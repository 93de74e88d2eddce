-- ===== src/Strconv.antt =====
-- strconv.Atoi, with the value that Go returns beside an error: 0 for bad syntax, the nearest
-- representable integer out of range. ParseUint stops at the first character that is no digit and
-- at the first digit that overflows 64 bits, whichever comes first.
use nps_socks.Prelude.{
  true, false, ◌/◌, ◌%◌, zero, ◌++◌, ℕ, ◌+◌, ◌-◌, ◌*◌, ◌^◌, Bool, ◌&&◌, [], ◌∷◌, ℤ, pos, negsuc,
  Text, ltb, leb, nat_beq, if◌then◌else◌, suc,
}

pub data Parsed : Type 0 where
  good : ℤ → Parsed
  bad_syntax : Parsed
  out_of_range : ℤ → Parsed

pub data Uint : Type 0 where
  number : ℕ → Uint
  not_a_number overflow : Uint

unfoldable pub is_digit : ℕ → Bool
is_digit c = leb b'0' c && leb c b'9'

unfoldable pub parse_uint : ℕ → Text → Uint
unfolding is_digit
parse_uint acc [] = number acc
parse_uint acc (c ∷ cs) =
    let acc' = acc * 10 + (c - b'0') in
    let rest = parse_uint acc' cs in
    if is_digit c then (if ltb acc' (2 ^ 64) then rest else overflow) else not_a_number

abbrev positive : Uint → Parsed
positive (number n) = if ltb n (2 ^ 63) then good (pos n) else out_of_range (pos (2 ^ 63 - 1))
positive not_a_number = bad_syntax
positive overflow = out_of_range (pos (2 ^ 63 - 1))

abbrev negative : Uint → Parsed
negative (number n) =
    if leb n (2 ^ 63)
    then good (if nat_beq n 0 then pos 0 else negsuc (n - 1))
    else out_of_range (negsuc (2 ^ 63 - 1))
negative not_a_number = bad_syntax
negative overflow = out_of_range (negsuc (2 ^ 63 - 1))

abbrev nonempty : Text → Uint
nonempty [] = not_a_number
nonempty (c ∷ cs) = parse_uint 0 (c ∷ cs)

unfoldable pub atoi : Text → Parsed
unfolding parse_uint
atoi [] = bad_syntax
atoi (c ∷ cs) =
    if nat_beq c b'-'
    then negative (nonempty cs)
    else if nat_beq c b'+'
    then positive (nonempty cs)
    else positive (nonempty (c ∷ cs))

-- the first result of Atoi, with the error dropped
abbrev pub value_of : Parsed → ℤ
value_of (good n) = n
value_of bad_syntax = pos 0
value_of (out_of_range n) = n

-- strconv.Itoa; a number has no more digits than its fuel.
abbrev digits : ℕ → ℕ → Text
digits zero n = []
digits (suc fuel) n = elim (ltb n 10) [
  | true ↦ (b'0' + n) ∷ []
  | false ↦ digits fuel (n / 10) ++ ((b'0' + n % 10) ∷ [])
]

unfoldable pub itoa : ℤ → Text
itoa (pos n) = digits (suc n) n
itoa (negsuc n) = b'-' ∷ digits (suc (suc n)) (suc n)
