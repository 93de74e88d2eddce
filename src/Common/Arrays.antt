-- ===== src/Common/Arrays.antt =====
-- lib/common/util.go: slices of strings and numbers, and the conversions of form values.
pub mod Laws
use nps_socks.Prelude.{
  ℕ, ◌+◌, ◌*◌, ◌≡◌, Bool, true, false, ◌||◌, Option, none, some, List, [], ◌∷◌, ◌++◌, ℤ, pos, Text,
  codes, text_eq, int_eq, ◌==◌, trim_space, if◌then◌else◌,
}
use nps_socks.Strconv.{atoi, value_of}

unfoldable pub get_bool_by_str : Text → Bool
get_bool_by_str s = s == codes "1" || s == codes "true"

unfoldable pub get_str_by_bool : Bool → Text
get_str_by_bool b = if b then codes "1" else codes "0"

unfoldable pub get_int_no_err_by_str : Text → ℤ
get_int_no_err_by_str str = value_of (atoi (trim_space str))

unfoldable pub in_str_arr : List Text → Text → Bool
in_str_arr [] val = false
in_str_arr (v ∷ arr) val = v == val || in_str_arr arr val

unfoldable pub in_int_arr : List ℤ → ℤ → Bool
in_int_arr [] val = false
in_int_arr (v ∷ arr) val = v == val || in_int_arr arr val

-- The empty elements are thrown away, the others trimmed.
unfoldable pub trim_arr : List Text → List Text
trim_arr [] = []
trim_arr (v ∷ arr) =
    let trimmed = trim_space v in
    let rest = trim_arr arr in if trimmed == [] then rest else trimmed ∷ rest

-- A nil slice contains nothing.
unfoldable pub is_arr_contains : Option (List Text) → Text → Bool
unfolding in_str_arr
is_arr_contains none val = false
is_arr_contains (some arr) val = in_str_arr arr val

-- The first occurrence is removed.
unfoldable pub remove_arr_val : List Text → Text → List Text
remove_arr_val [] val = []
remove_arr_val (v ∷ arr) val = if v == val then arr else v ∷ remove_arr_val arr val
