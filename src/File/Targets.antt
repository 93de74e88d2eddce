-- ===== src/File/Targets.antt =====
-- lib/file/obj.go, `GetRandomTarget`: the next of a tunnel's targets, in turn.
pub mod Turns
use nps_socks.File.Obj.{Target}
use nps_socks.Prelude.{
  ℕ, Bool, true, false, Option, none, some, List, [], ◌∷◌, ℤ, pos, negsuc, ◌-ℤ◌, ◌+ℤ◌, leb_ℤ, Text,
  split, length, get_elem?, if◌then◌else◌,
}

-- `panic` is an index out of range.
pub data Pick : Type 0 where
  picked : Text → Pick
  all_offline panic : Pick

abbrev element : List Text → ℤ → Option Text
element arr (pos i) = get_elem? arr i
element arr (negsuc i) = none

abbrev found : Option Text → Pick
found none = panic
found (some x) = picked x

abbrev pub targets : Target → List Text
targets s = elim s.target_arr [ none ↦ split b'\n' s.target_str | some arr ↦ arr ]

-- The index after `nowIndex++`.
abbrev pub next_index : ℤ → List Text → ℤ
next_index now arr = (if leb_ℤ (pos (length arr) -ℤ pos 1) now then negsuc 0 else now) +ℤ pos 1

choose : List Text → Target → Target × Pick
choose [] s = (s, all_offline)
choose (x ∷ []) s = (s, picked x)
choose (x ∷ y ∷ arr) s =
    let i = next_index s.now_index (x ∷ y ∷ arr) in
    (record s { now_index = i }, found (element (x ∷ y ∷ arr) i))

unfoldable pub get_random_target : Target → Target × Pick
unfolding choose
get_random_target s = let arr = targets s in choose arr (record s { target_arr = some arr })
