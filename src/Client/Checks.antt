-- ===== src/Client/Checks.antt =====
-- client/health.go, `check`: the checks of the targets of a tunnel, and what the server is told of them.
-- Whether a target answers, by TCP or by HTTP with the status 200, is a parameter.
pub mod View
use nps_socks.Prelude.{
  Text, Bool, ℤ, ℕ, List, codes, text_eq, ◌==◌, ◌&&◌, not, ltb_ℤ, leb_ℤ, pos, pos_part, wrap64,
  ◌+ℤ◌, true, false, if◌then◌else◌, ◌%◌, ◌++◌, ◌∷◌, [], split, nat_eq, ◌≡◌, ◌≤◌, ◌<◌, ◌+◌, ◌^◌, leb,
  length, refl, Bool-cases, inl, inr, arith, ap, ◌∙◌, ==_iff, ==_refl, beq_text, suc, ◌≢◌, subst,
  zero, sym,
}
use native.Mathlib.Decide.{dec_lt}
use native.Mathlib.Nat.{mod-eq_of_lt, mod_self}

-- A target and its state: `"1"` is up and `"0"` is down.
abbrev pub Messages : Type 0
Messages = List (Text × Text)

abbrev pub Failures : Type 0
Failures = List (Text × ℤ)

-- A map of Go gives 0 for a missing key.
abbrev pub failures_of : Text → Failures → ℤ
failures_of v [] = pos 0
failures_of v ((k, n) ∷ m) = if k == v then n else failures_of v m

abbrev pub set_failures : Text → ℤ → Failures → Failures
set_failures v n [] = (v, n) ∷ []
set_failures v n ((k, old) ∷ m) = if k == v then (v, n) ∷ m else (k, old) ∷ set_failures v n m

abbrev pub is_again_down : ℤ → ℤ → Bool
is_again_down max_fail n = ltb_ℤ (pos 0) n && pos_part n % pos_part max_fail == 0

-- What is sent when a target has failed as often as the limit, or a multiple of it.
abbrev pub down_message : ℤ → Text → Failures → Messages
down_message max_fail v m =
    if is_again_down max_fail (failures_of v m) then (v, codes "0") ∷ [] else []

-- What one target's answer changes, for a positive limit of failures.
unfoldable pub check_one : ℤ → Text → Bool → Failures → Failures × Messages
check_one max_fail v answers m =
    let failed = set_failures v (wrap64 (failures_of v m +ℤ pos 1)) m in
    let reset = set_failures v (pos 0) m in
    if not answers
    then (failed, down_message max_fail v failed)
    else if leb_ℤ max_fail (failures_of v m)
    then (reset, (v, codes "1") ∷ down_message max_fail v reset)
    else (m, down_message max_fail v m)

abbrev pub check_each : ℤ → (Text → Bool) → List Text → Failures → Failures × Messages
check_each max_fail answers [] m = (m, [])
check_each max_fail answers (v ∷ vs) m =
    let (m', sent) = check_one max_fail v (answers v) m in
    let (m'', more) = check_each max_fail answers vs m' in (m'', sent ++ more)

-- `check` for the text of the targets
unfoldable pub check : ℤ → (Text → Bool) → Text → Failures → Failures × Messages
unfolding check_one
check max_fail answers health_check_target m =
    check_each max_fail answers (split b',' health_check_target) m
