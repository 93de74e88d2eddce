-- ===== src/Rate/Racing.antt =====
-- lib/rate/rate.go: a bucket that many callers of `Get` share with its session. What each reads and what it
-- then writes are two steps, and others may come between.
pub mod Limit
pub mod Paces
use nps_socks.Rate.{Rate, has_surplus, withdraw, addition, deposit, new_rate}
use nps_socks.Prelude.{
  ℕ, zero, suc, ◌+◌, ◌*◌, ◌^◌, ◌≤◌, ◌<◌, ◌≡◌, ◌⊎◌, inl, inr, refl, List, [], ◌∷◌, All, Option, none,
  some, length, ℤ, pos, negsuc, pos_part, neg_part, ◌+ℤ◌, ◌-ℤ◌, wrap64, wrap64_in_range, +ℤ_parts,
  -ℤ_parts, arith, ltb, ◌&&◌, if◌then◌else◌, ap, ◌∙◌, Bool-cases, sym, subst, some_inj,
  Option-cases, eq_of_parts, ltb_ℤ,
}

-- A call of `Get` for `n` bytes looks at the bucket, and one that has passed the test takes its bytes, the
-- i-th of those that wait to; the session reads what it adds, and adds it.
pub data Act : Type 0 where
  looks takes : ℕ → Act
  reads adds : Act

-- The bucket, what the calls between test and subtraction are about to take, what the session is about to
-- add, and the bytes that were taken.
pub record Shared : Type 0 where
  pub rate : Rate
  pub taking : List ℕ
  pub adding : Option ℤ
  pub taken : ℕ

-- The i-th of a list, and the others.
abbrev pub take_out : ℕ → List ℕ → Option (ℕ × List ℕ)
take_out i [] = none
take_out zero (n ∷ ns) = some (n, ns)
take_out (suc i) (n ∷ ns) = elim (take_out i ns) [
  | none ↦ none
  | some (x, rest) ↦ some (x, n ∷ rest)
]

abbrev pub withdrawn : Option (ℕ × List ℕ) → Shared → Shared
withdrawn none s = s
withdrawn (some (n, rest)) s = record s {
  rate = withdraw (pos n) s.rate;
  taking = rest;
  taken = s.taken + n;
}

abbrev pub read : Option ℤ → Shared → Shared
read none s = record s { adding = some (addition s.rate.bucket_add_size s.rate) }
read (some d) s = s

abbrev pub added : Option ℤ → Shared → Shared
added none s = s
added (some d) s = record s { rate = deposit d s.rate; adding = none }

-- At most `k` calls are between their test and their subtraction.
unfoldable pub act : ℕ → Act → Shared → Shared
act k (looks n) s =
    if ltb (length s.taking) k && has_surplus (pos n) s.rate
    then record s { taking = n ∷ s.taking }
    else s
act k (takes i) s = withdrawn (take_out i s.taking) s
act k reads s = read s.adding s
act k adds s = added s.adding s

unfoldable pub acts : ℕ → List Act → Shared → Shared
unfolding act
acts k [] s = s
acts k (e ∷ es) s = acts k es (act k e s)

-- A new bucket that no one uses yet.
abbrev pub fresh : ℕ → Shared
fresh a = record { rate = new_rate (pos a); taking = []; adding = none; taken = 0 }

-- The ticks of the session.
abbrev pub ticks : List Act → ℕ
ticks [] = 0
ticks (looks n ∷ es) = ticks es
ticks (takes i ∷ es) = ticks es
ticks (reads ∷ es) = ticks es + 1
ticks (adds ∷ es) = ticks es

-- No call asks for more than `m` bytes.
abbrev pub AtMost : ℕ → List Act → Type 0
AtMost m [] = Unit
AtMost m (looks n ∷ es) = (n ≤ m) × AtMost m es
AtMost m (takes i ∷ es) = AtMost m es
AtMost m (reads ∷ es) = AtMost m es
AtMost m (adds ∷ es) = AtMost m es
