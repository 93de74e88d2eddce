-- ===== src/Client/Checks/View.antt =====
-- client/health.go: what the server is told of a target fits the failures that are counted.
use nps_socks.Client.Checks.{
  Messages, Failures, failures_of, set_failures, is_again_down, down_message, check_one,
}
use nps_socks.Prelude.{
  Text, Bool, ℤ, ℕ, List, codes, text_eq, ◌==◌, leb_ℤ, pos, wrap64, ◌+ℤ◌, true, false,
  if◌then◌else◌, ◌++◌, ◌∷◌, [], nat_eq, ◌≡◌, ◌≤◌, ◌<◌, ◌+◌, ◌^◌, leb, length, refl, Bool-cases, inl,
  inr, arith, ◌∙◌, ==_refl, beq_text, suc, ◌≢◌, subst, zero, sym,
}
use native.Mathlib.Decide.{dec_lt}
use native.Mathlib.Nat.{mod-eq_of_lt, mod_self}

-- Whether the server, which is told in this order, holds the target to be down.
abbrev pub view : Text → Messages → Bool → Bool
view v [] down = down
view v ((k, status) ∷ sent) down = view v sent (if k == v then status == codes "0" else down)

-- The answers of one target in successive checks.
abbrev pub rounds : ℤ → Text → List Bool → Failures → Failures × Messages
rounds max_fail v [] m = (m, [])
rounds max_fail v (a ∷ more) m =
    let (m', sent) = check_one max_fail v a m in
    let (m'', rest) = rounds max_fail v more m' in (m'', sent ++ rest)

failures_of-set : (v : Text) (n : ℤ) (m : Failures) → failures_of v (set_failures v n m) ≡ n
failures_of-set v n [] = ground (arith, ==_refl v)
failures_of-set v n ((k, old) ∷ m) = ground (arith, ==_refl v, failures_of-set v n m)

view-append :
    (v : Text) (a b : Messages) (down : Bool) → view v (a ++ b) down ≡ view v b (view v a down)
view-append v [] b down = refl
view-append v ((k, status) ∷ a) b down =
    view-append v a b (if k == v then status == codes "0" else down)

-- What the server holds of the target fits the count of its failures.
record Fits (max n : ℕ) (v : Text) (m : Failures) (down : Bool) : Type 0 where
  count : failures_of v m ≡ pos n
  known : down ≡ leb max n

-- Below the limit nothing is sent, at the limit that the target is down, and above it nothing else.
down_message_below :
    (max n : ℕ) (v : Text) (m : Failures)
    → failures_of v m ≡ pos n
    → n < max
    → down_message (pos max) v m ≡ []
down_message_below max zero v m e h = rw e refl
down_message_below max (suc n) v m e h = rw (e, mod-eq_of_lt h) (ground arith)

down_message_at :
    (max : ℕ) (v : Text) (m : Failures)
    → failures_of v m ≡ pos max
    → 0 < max
    → down_message (pos max) v m ≡ (v, codes "0") ∷ []
down_message_at max v m e h = rw (e, mod_self max) (ground arith)

view-down_message : (max : ℤ) (v : Text) (m : Failures) → view v (down_message max v m) true ≡ true
unfolding beq_text
view-down_message max v m = elim (Bool-cases (is_again_down max (failures_of v m))) [
  | inl again ↦ rw (again, ==_refl v) refl
  | inr not_again ↦ rw not_again refl
]

down_message-Fits :
    (max k : ℕ) (v : Text) (m : Failures) (down : Bool)
    → 0 < max
    → failures_of v m ≡ pos k
    → (k ≢ max → down ≡ leb max k)
    → Fits max k v m (view v (down_message (pos max) v m) down)
unfolding beq_text
down_message-Fits max k v m down some_max e h = elim (dec_lt k max) [
  | yes below ↦
      rw (down_message_below max k v m e below)
        (record { count = e; known = h (λ same. omega (arith, same, below)) })
  | no not_below ↦ elim (dec_lt max k) [
    | yes over ↦
        let was : down ≡ true = h (λ same. omega (arith, same, over)) ∙ ground (arith, over) in
        rw was
          (record { count = e; known = view-down_message (pos max) v m ∙ ground (arith, over) })
    | no not_over ↦
        let same : k ≡ max = omega (arith, not_below, not_over) in
        rw (down_message_at max v m (rw (← same) e) some_max, ==_refl v)
          (record { count = e; known = ground (arith, same) })
  ]
]

check_one-Fits :
    (max n : ℕ) (v : Text) (a : Bool) (m : Failures) (down : Bool)
    → 0 < max
    → n + 1 < 2 ^ 63
    → Fits max n v m down
    → (n' : ℕ) × (n' ≤ n + 1)
      × Fits max n' v (check_one (pos max) v a m).0 (view v (check_one (pos max) v a m).1 down)
unfolding check_one wrap64 ◌+ℤ◌ beq_text
check_one-Fits max n v false m down some_max small h =
    let one_more : wrap64 (failures_of v m +ℤ pos 1) ≡ pos (n + 1) = ground (arith, h.count) in
    (
      n + 1,
      omega arith,
      down_message-Fits max (n + 1) v (set_failures v (wrap64 (failures_of v m +ℤ pos 1)) m) down
          some_max (failures_of-set v (wrap64 (failures_of v m +ℤ pos 1)) m ∙ one_more)
          (λ ne. h.known ∙ ground (arith, ne)),
    )
check_one-Fits max n v true m down some_max small h = elim (Bool-cases (leb max n)) [
  | inl many ↦
      let over : leb_ℤ (pos max) (failures_of v m) ≡ true = ground (arith, many, h.count) in
      let reset = set_failures v (pos 0) m in
      let told : (if v == v then false else down) ≡ false = ground (arith, ==_refl v) in
      rw over (
        0,
        omega arith,
        subst (λ b. Fits max 0 v reset (view v (down_message (pos max) v reset) b)) (sym told)
            (down_message-Fits max 0 v reset false some_max (failures_of-set v (pos 0) m)
              (λ ne. ground (arith, some_max))),
      )
  | inr few ↦
      let under : leb_ℤ (pos max) (failures_of v m) ≡ false = ground (arith, few, h.count) in
      rw under (n, omega arith, down_message-Fits max n v m down some_max h.count (λ ne. h.known))
]

rounds-Fits :
    (max n : ℕ) (v : Text) (answers : List Bool) (m : Failures) (down : Bool)
    → 0 < max
    → n + length answers < 2 ^ 63
    → Fits max n v m down
    → (n' : ℕ) × Fits max n' v
        (rounds (pos max) v answers m).0
        (view v (rounds (pos max) v answers m).1 down)
rounds-Fits max n v [] m down some_max small h = (n, h)
rounds-Fits max n v (a ∷ more) m down some_max small h =
    let (k, le, next) = check_one-Fits max n v a m down some_max (omega (arith, small)) h in
    let (m', sent) = check_one (pos max) v a m in
    let (n', last) =
      rounds-Fits max k v more (check_one (pos max) v a m).0
        (view v (check_one (pos max) v a m).1 down) some_max (omega (arith, le, small)) next in
    (
      n',
      subst (λ b. Fits max n' v (rounds (pos max) v (a ∷ more) m).0 b)
          (sym (
            view-append v (check_one (pos max) v a m).1
              (rounds (pos max) v more (check_one (pos max) v a m).0).1 down))
          last,
    )

-- Through any sequence of answers of a target that was never checked, what the server is told last of it
-- stays true: it is told that the target is down exactly when the failures that are counted have reached
-- the limit, which is positive; fewer than 2^63 checks are made.
pub rounds-view :
    (max : ℕ) (v : Text) (answers : List Bool)
    → 0 < max
    → length answers < 2 ^ 63
    → (n : ℕ) × (failures_of v (rounds (pos max) v answers []).0 ≡ pos n)
      × (view v (rounds (pos max) v answers []).1 false ≡ leb max n)
rounds-view max v answers some_max small =
    let (n, h) =
      rounds-Fits max 0 v answers [] false some_max (omega (arith, small))
        (record { count = refl; known = ground (arith, some_max) }) in
    (n, h.count, h.known)
