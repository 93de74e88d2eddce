-- ===== src/Common/Bytes.antt =====
-- encoding/binary and `copy` as lib/common and server/proxy use them.
use nps_socks.Prelude.{
  ℕ, zero, suc, ◌+◌, ◌*◌, ◌/◌, ◌%◌, ◌<◌, ◌≡◌, refl, Option, none, some, [], ◌∷◌, ◌++◌, Text, arith,
  length,
}

-- PutUint16 in big-endian order
abbrev pub put_uint16 : ℕ → Text
put_uint16 n = ((n / 256) % 256) ∷ (n % 256) ∷ []

-- Uint16 in big-endian order; `none` is a slice that is too short
abbrev pub uint16 : Text → Option ℕ
uint16 (hi ∷ lo ∷ rest) = some (hi * 256 + lo)
uint16 (hi ∷ []) = none
uint16 [] = none

-- `b[:n]`; `none` is an index out of range
unfoldable pub slice_to : ℕ → Text → Option Text
slice_to zero b = some []
slice_to (suc n) [] = none
slice_to (suc n) (x ∷ b) = elim (slice_to n b) [ none ↦ none | some s ↦ some (x ∷ s) ]

pub slice_to-append : (s rest : Text) → slice_to (length s) (s ++ rest) ≡ some s
unfolding slice_to
slice_to-append [] rest = refl
slice_to-append (x ∷ s) rest = rw (slice_to-append s rest)

pub slice_to-short : (n : ℕ) (b : Text) → length b < n → slice_to n b ≡ none
unfolding slice_to
slice_to-short zero b h = elim h [ ]
slice_to-short (suc n) [] h = refl
slice_to-short (suc n) (x ∷ b) h = rw (slice_to-short n b (omega arith))
