-- ===== src/Common/Arrays/Laws.antt =====
-- The slices of lib/common/util.go: what stays in a list, and what leaves it.
use nps_socks.Common.Arrays.{in_str_arr, remove_arr_val}
use nps_socks.Prelude.{
  ℕ, ◌+◌, ◌≡◌, true, false, List, [], ◌∷◌, Text, text_eq, nat_eq, ◌==◌, ==_iff, arith,
  if◌then◌else◌,
}

-- The occurrences of a value.
unfoldable pub occurrences : Text → List Text → ℕ
occurrences x [] = 0
occurrences x (v ∷ arr) = (if v == x then 1 else 0) + occurrences x arr

-- A value is in the slice exactly when it occurs there.
pub in_str_arr-occurrences :
    (arr : List Text) (x : Text)
    → in_str_arr arr x ≡ (if occurrences x arr == 0 then false else true)
unfolding in_str_arr occurrences
in_str_arr-occurrences [] x = ground arith
in_str_arr-occurrences (v ∷ arr) x = ground (arith, in_str_arr-occurrences arr x)

-- RemoveArrVal takes one occurrence of the value away if there is one, and no other value.
pub occurrences-remove_arr_val :
    (arr : List Text) (val x : Text)
    → occurrences x (remove_arr_val arr val)
        + (if val == x then (if in_str_arr arr val then 1 else 0) else 0)
      ≡ occurrences x arr
unfolding occurrences remove_arr_val in_str_arr
occurrences-remove_arr_val [] val x = ground arith
occurrences-remove_arr_val (v ∷ arr) val x =
    ground (arith, ==_iff v val, ==_iff v x, ==_iff val x, occurrences-remove_arr_val arr val x)
