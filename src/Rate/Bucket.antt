-- ===== src/Rate/Bucket.antt =====
-- The token bucket that lib/rate/rate.go implements: a level below twice the refill.
use nps_socks.Prelude.{
  ℕ, ◌+◌, ◌-◌, ◌^◌, ◌≤◌, ◌<◌, ◌≡◌, List, [], ◌∷◌, pos, leb, arith, wrap64, ◌+ℤ◌, ◌-ℤ◌, ltb,
  if◌then◌else◌,
}
use nps_socks.Rate.{Rate, Event, tick, ask, session, get, step}

-- One event on the level, and the bytes that it lets through.
unfoldable pub bucket_step : ℕ → Event → ℕ → ℕ × ℕ
bucket_step a tick s = (if ltb (a + a) (s + a) then a + a else s + a, 0)
bucket_step a (ask n) s = if leb n s then (s - n, n) else (s, 0)

unfoldable pub bucket_run : ℕ → List Event → ℕ → ℕ × ℕ
bucket_run a [] s = (s, 0)
bucket_run a (e ∷ es) s =
    let (s', n) = bucket_step a e s in let (s'', m) = bucket_run a es s' in (s'', n + m)

-- `r` stands for the level `s`, with the refill `a`.
pub record Holds (a s : ℕ) (r : Rate) : Type 0 where
  pub add_size : r.bucket_add_size ≡ pos a
  pub size : r.bucket_size ≡ pos (a + a)
  pub surplus : r.bucket_surplus_size ≡ pos s
  pub bounded : s ≤ a + a

module _ (a s : ℕ) (r : Rate) (small : a < 2 ^ 62) (h : Holds a s r) where
  pub Holds-session : Holds a (bucket_step a tick s).0 (session r)
  unfolding session bucket_step ◌+ℤ◌ ◌-ℤ◌ wrap64
  Holds-session = ground arith

  pub Holds-get : (n : ℕ) → Holds a (bucket_step a (ask n) s).0 (step (ask n) r).0
  unfolding step get bucket_step ◌+ℤ◌ ◌-ℤ◌ wrap64
  Holds-get n = ground arith

  pub taken-get : (n : ℕ) → (step (ask n) r).1 ≡ (bucket_step a (ask n) s).1
  unfolding step get bucket_step ◌+ℤ◌ ◌-ℤ◌ wrap64
  taken-get n = ground arith
