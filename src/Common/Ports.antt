-- ===== src/Common/Ports.antt =====
-- lib/common/util.go: lists of ports such as `80,1000-1005`.
use nps_socks.Prelude.{
  ℕ, zero, suc, ◌-◌, Bool, false, ◌&&◌, ◌||◌, not, List, [], ◌∷◌, ◌++◌, ℤ, pos, pos_part, Text,
  split, ltb_ℤ, if◌then◌else◌,
}
use nps_socks.Strconv.{Parsed, good, bad_syntax, out_of_range, atoi, value_of}

-- The upper bound of the source is 65536.
abbrev in_bounds : Parsed → Bool
in_bounds (good pi) = not (ltb_ℤ (pos 65536) pi || ltb_ℤ pi (pos 1))
in_bounds bad_syntax = false
in_bounds (out_of_range pi) = false

unfoldable pub is_port : Text → Bool
is_port p = in_bounds (atoi p)

-- `n` numbers from `start` on
abbrev count_up : ℕ → ℕ → List ℤ
count_up start zero = []
count_up start (suc n) = pos start ∷ count_up (suc start) n

-- `for i := start; i <= end; i++`, for the bounds that IsPort lets through
abbrev span : ℤ → ℤ → List ℤ
span start end = count_up (pos_part start) (suc (pos_part end) - pos_part start)

ports_of : Text → List Text → List ℤ
unfolding is_port
ports_of v (a ∷ b ∷ []) =
    if is_port a && is_port b then span (value_of (atoi a)) (value_of (atoi b)) else []
ports_of v _ = if is_port v then value_of (atoi v) ∷ [] else []

get_ports_from : List Text → List ℤ
get_ports_from [] = []
get_ports_from (v ∷ arr) = ports_of v (split b'-' v) ++ get_ports_from arr

unfoldable pub get_ports : Text → List ℤ
unfolding ports_of get_ports_from
get_ports p = get_ports_from (split b',' p)
