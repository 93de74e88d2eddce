-- ===== src/Common/BlackList.antt =====
-- lib/common/util.go and server/proxy/base.go: the black lists. `in` sorts the list in place, so the list
-- afterwards is a result too. A string is compared byte by byte.
pub mod Sorted
use nps_socks.Common.Addr.{get_ip_by_addr}
use nps_socks.File.Obj.{Glob}
use nps_socks.Prelude.{
  Text, Bool, Option, ℕ, List, text_eq, nat_eq, ◌==◌, ◌&&◌, ◌||◌, ltb, none, some, true, false,
  if◌then◌else◌, get_elem?, ◌∷◌, suc, [],
}

-- `a < b` for strings
unfoldable pub lt_text : Text → Text → Bool
lt_text a [] = false
lt_text [] (y ∷ ys) = true
lt_text (x ∷ xs) (y ∷ ys) = ltb x y || (x == y && lt_text xs ys)

unfoldable pub insert_text : Text → List Text → List Text
unfolding lt_text
insert_text x [] = x ∷ []
insert_text x (y ∷ ys) = let rest = insert_text x ys in if lt_text y x then y ∷ rest else x ∷ y ∷ ys

-- sort.Strings: equal strings cannot be told apart
unfoldable pub sort_strings : List Text → List Text
unfolding insert_text
sort_strings [] = []
sort_strings (x ∷ xs) = insert_text x (sort_strings xs)

-- sort.SearchStrings in a sorted slice: the first index whose element is not below the target
unfoldable pub search_strings : List Text → Text → ℕ
unfolding lt_text
search_strings [] target = 0
search_strings (x ∷ xs) target =
    let rest = search_strings xs target in if lt_text x target then suc rest else 0

abbrev pub stands : Text → Option Text → Bool
stands target none = false
stands target (some x) = x == target

-- `in`: the list, sorted, and whether the target is in it
unfoldable pub in_list : Text → List Text → List Text × Bool
unfolding sort_strings search_strings
in_list target str_array =
    let sorted = sort_strings str_array in
    (sorted, stands target (get_elem? sorted (search_strings sorted target)))

unfoldable pub is_black_ip : Text → List Text → List Text × Bool
unfolding in_list
is_black_ip ip_port black_ip_list = in_list (get_ip_by_addr ip_port) black_ip_list

unfoldable pub is_global_black_ip : Text → Option Glob → Option Glob × Bool
unfolding in_list
is_global_black_ip ip_port none = (none, false)
is_global_black_ip ip_port (some global) =
    let (sorted, found) = in_list (get_ip_by_addr ip_port) global.black_ip_list in
    (some (record global { black_ip_list = sorted }), found)
