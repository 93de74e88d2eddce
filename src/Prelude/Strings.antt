-- ===== src/Prelude/Strings.antt =====
-- Go's `string` and `[]byte` as lists of bytes, with what the program uses of package `strings`.
use Prim.Native.Char.{code}
use Prim.Native.Nat.{ℕ, zero, suc, ◌+◌, ◌-◌}
use Prim.Native.String.{String}
use mathlib.Core.Bool.{Bool, true, false, ◌&&◌, ◌||◌}
use mathlib.Core.List.{List, [], ◌∷◌, ◌++◌, reverse}
use mathlib.Core.Logic.{◌↔◌}
use mathlib.Core.Option.{Option, none, some}
use mathlib.Core.Path.{◌≡◌}
use native.Mathlib.Omega.{arith}
use nps_socks.Prelude.Lists.{length}
use nps_socks.Prelude.Tests.{leb, nat_beq, Comparable, if◌then◌else◌}

abbrev pub Text : Type 0
Text = List ℕ

-- The bytes of an ASCII literal.
abbrev pub codes : String → Text
codes String.[] = []
codes (String.◌∷◌ c s) = code c ∷ codes s

unfoldable pub beq_text : Text → Text → Bool
beq_text [] [] = true
beq_text [] (y ∷ ys) = false
beq_text (x ∷ xs) [] = false
beq_text (x ∷ xs) (y ∷ ys) = nat_beq x y && beq_text xs ys

pub beq_text_iff : (a b : Text) → (beq_text a b ≡ true) ↔ (a ≡ b)
unfolding beq_text
beq_text_iff [] [] = ground arith
beq_text_iff [] (y ∷ ys) = ground arith
beq_text_iff (x ∷ xs) [] = ground arith
beq_text_iff (x ∷ xs) (y ∷ ys) = ground (arith, beq_text_iff xs ys)

instance abbrev pub text_eq : Comparable Text
text_eq = record { same = beq_text; same_iff = beq_text_iff }

-- strings.HasPrefix(s, p)
unfoldable pub has_prefix : Text → Text → Bool
has_prefix s [] = true
has_prefix [] (y ∷ ys) = false
has_prefix (x ∷ xs) (y ∷ ys) = nat_beq x y && has_prefix xs ys

-- strings.Contains(s, p)
unfoldable pub contains : Text → Text → Bool
unfolding has_prefix
contains [] p = has_prefix [] p
contains (x ∷ xs) p = has_prefix (x ∷ xs) p || contains xs p

-- strings.Count(s, c) for one byte
unfoldable pub count : ℕ → Text → ℕ
count c [] = 0
count c (x ∷ xs) = (if nat_beq x c then 1 else 0) + count c xs

abbrev pub cons_head : ℕ → List Text → List Text
cons_head x [] = (x ∷ []) ∷ []
cons_head x (y ∷ ys) = (x ∷ y) ∷ ys

-- strings.Split(s, c) for a separator of one byte
unfoldable pub split : ℕ → Text → List Text
split c [] = [] ∷ []
split c (x ∷ xs) = let rest = split c xs in if nat_beq x c then [] ∷ rest else cons_head x rest

-- strings.Join(parts, c)
unfoldable pub join : ℕ → List Text → Text
join c [] = []
join c (x ∷ []) = x
join c (x ∷ y ∷ ys) = x ++ (c ∷ join c (y ∷ ys))

-- The space characters of ASCII, as unicode.IsSpace reads them.
unfoldable pub is_space : ℕ → Bool
is_space c = nat_beq c 32 || (leb 9 c && leb c 13)

abbrev pub trim_left : Text → Text
trim_left [] = []
trim_left (x ∷ xs) = let rest = trim_left xs in if is_space x then rest else x ∷ xs

-- strings.TrimSpace
unfoldable pub trim_space : Text → Text
unfolding is_space
trim_space s = reverse (trim_left (reverse (trim_left s)))

-- strings.Replace(s, old, new, -1); `skip` bytes of an occurrence are still to be passed over
unfoldable pub replace_from : ℕ → Text → Text → Text → Text
unfolding has_prefix
replace_from skip old new [] = []
replace_from (suc k) old new (x ∷ xs) = replace_from k old new xs
replace_from zero old new (x ∷ xs) = elim (has_prefix (x ∷ xs) old) [
  | true ↦ new ++ replace_from (length old - 1) old new xs
  | false ↦ x ∷ replace_from 0 old new xs
]

abbrev pub replace_all : Text → Text → Text → Text
replace_all s old new = replace_from 0 old new s

-- strings.LastIndex(s, c) for one byte; `none` is -1
unfoldable pub last_index : ℕ → Text → Option ℕ
last_index c [] = none
last_index c (x ∷ xs) = elim (last_index c xs) [
  | some i ↦ some (suc i)
  | none ↦ if nat_beq x c then some 0 else none
]

-- strings.Split(s, sep) for a separator of several bytes; `skip` bytes of one are still to be passed
unfoldable pub split_from : ℕ → Text → Text → List Text
unfolding has_prefix
split_from skip sep [] = [] ∷ []
split_from (suc k) sep (x ∷ xs) = split_from k sep xs
split_from zero sep (x ∷ xs) = elim (has_prefix (x ∷ xs) sep) [
  | true ↦ [] ∷ split_from (length sep - 1) sep xs
  | false ↦ cons_head x (split_from 0 sep xs)
]

abbrev pub split_text : Text → Text → List Text
split_text s sep = split_from 0 sep s
