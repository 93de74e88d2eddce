-- ===== src/Rate/Racing/Limit.antt =====
-- lib/rate/rate.go: the bytes that a shared bucket lets through.
use nps_socks.Rate.Racing.{
  Act, looks, takes, reads, adds, Shared, take_out, act, acts, fresh, ticks, AtMost,
}
use nps_socks.Rate.Racing.Paces.{
  one_part, total, IsAdding, Paced, take_out-Out, Paced-looks, Paced-withdrawn, Paced-read,
  Paced-added,
}
use nps_socks.Rate.{get, has_surplus, new_rate}
use nps_socks.Prelude.{
  ℕ, suc, ◌+◌, ◌*◌, ◌^◌, ◌≤◌, ◌<◌, ◌≡◌, inl, inr, refl, List, [], ◌∷◌, pos, ◌+ℤ◌, wrap64_in_range,
  arith, ◌∙◌, subst, Option-cases, false,
}

plus_zero : (n : ℕ) → n + 0 ≡ n
plus_zero n = omega arith

zero_plus : (n : ℕ) → 0 + n ≡ n
zero_plus n = omega arith

AtMost-split :
    (m : ℕ) (e : Act) (es : List Act) → AtMost m (e ∷ es) → AtMost m (e ∷ []) × AtMost m es
AtMost-split m (looks n) es (x, h) = ((x, tt), h)
AtMost-split m (takes i) es h = (tt, h)
AtMost-split m reads es h = (tt, h)
AtMost-split m adds es h = (tt, h)

ticks_sum : (e : Act) (es : List Act) (t : ℕ) → t + ticks (e ∷ []) + ticks es ≡ t + ticks (e ∷ es)
ticks_sum (looks n) es t = omega arith
ticks_sum (takes i) es t = omega arith
ticks_sum reads es t = omega arith
ticks_sum adds es t = omega arith

module _ (a j m : ℕ) (bounded : a + a + j * m < 2 ^ 63) where
  Paced-act :
      (e : Act) (t : ℕ) (s : Shared)
      → AtMost m (e ∷ [])
      → Paced a (j * m) m (suc j) t s
      → Paced a (j * m) m (suc j) (t + ticks (e ∷ [])) (act (suc j) e s)
  unfolding act
  Paced-act (looks n) t s fit h = rw (plus_zero t) (Paced-looks a j m bounded n t s fit.0 h)
  Paced-act (takes i) t s fit h = elim (Option-cases (take_out i s.taking)) [
    | inl no_one ↦ rw (no_one, plus_zero t) h
    | inr ((n, rest), at) ↦
        rw (at, plus_zero t)
          (Paced-withdrawn a j m bounded t s n rest (take_out-Out i s.taking n rest at) h)
  ]
  Paced-act reads t s fit h = Paced-read a j m bounded s.adding t s refl h
  Paced-act adds t s fit h = rw (plus_zero t) (Paced-added a j m bounded s.adding t s refl h)

  Paced-acts :
      (es : List Act) (t : ℕ) (s : Shared)
      → AtMost m es
      → Paced a (j * m) m (suc j) t s
      → Paced a (j * m) m (suc j) (t + ticks es) (acts (suc j) es s)
  unfolding acts
  Paced-acts [] t s fit h = rw (plus_zero t) h
  Paced-acts (e ∷ es) t s fit h =
      let (one, more) = AtMost-split m e es fit in
      subst (λ n. Paced a (j * m) m (suc j) n (acts (suc j) (e ∷ es) s)) (ticks_sum e es t)
        (Paced-acts es (t + ticks (e ∷ [])) (act (suc j) e s) more (Paced-act e t s one h))

  twice : pos a +ℤ pos a ≡ pos (a + a)
  unfolding ◌+ℤ◌
  twice = ground arith

  Paced-fresh : Paced a (j * m) m (suc j) 0 (fresh a)
  unfolding new_rate total IsAdding
  Paced-fresh = record {
    p = 0;
    size = wrap64_in_range (pos a +ℤ pos a) rw twice (omega (arith, bounded), omega arith) ∙ twice;
    add_size = refl;
    adding = inl (refl, refl);
    small = omega arith;
    low = omega arith;
    high = omega arith;
    sum = omega arith;
    fits = tt;
    few = omega arith;
  }

  -- Many callers share a new bucket, at most j + 1 of them at once between the test of `Get` and its
  -- subtraction, and none asks for more than `m` bytes: however their steps and the session's mix, the bytes
  -- that are let through pass the refill times the ticks by at most `j` times `m`, and by nothing if no two
  -- are there at once. Twice the refill and that excess are below 2^63.
  pub acts_limit :
      (es : List Act) → AtMost m es → (acts (suc j) es (fresh a)).taken ≤ a * ticks es + j * m
  acts_limit es fit =
      let h = Paced-acts es 0 (fresh a) fit Paced-fresh in
      omega (arith, h.sum, h.low, zero_plus (ticks es))

  -- Many callers share a new bucket, at most j + 1 of them at once between the test of `Get` and its
  -- subtraction, and none of these asks for more than `m` bytes: however their steps and the session's mix,
  -- the look of `Get` for more than two refills fails, and so such a call waits for ever. Twice the refill
  -- and `j` times `m` together are below 2^63.
  pub acts_starves :
      (es : List Act) (n : ℕ)
      → AtMost m es
      → a + a < n
      → get (pos n) (acts (suc j) es (fresh a)).rate ≡ ((acts (suc j) es (fresh a)).rate, false)
  unfolding get
  acts_starves es n fit big =
      let h = Paced-acts es 0 (fresh a) fit Paced-fresh in
      let short : has_surplus (pos n) (acts (suc j) es (fresh a)).rate ≡ false =
        ground
          (arith, h.high, big, one_part (acts (suc j) es (fresh a)).rate.bucket_surplus_size) in
      rw short refl
