-- ===== src/Rate/Limit.antt =====
-- What the token bucket of lib/rate/rate.go promises where calls do not overlap: progress, and a largest
-- request.
use nps_socks.Prelude.{
  ℕ, ◌+◌, ◌^◌, ◌≤◌, ◌<◌, ◌≡◌, refl, true, List, [], ◌∷◌, pos, arith, ◌+ℤ◌, wrap64,
}
use nps_socks.Rate.{Rate, Event, tick, ask, new_rate, session, get, step, run}
use nps_socks.Rate.Bucket.{bucket_step, bucket_run, Holds, Holds-session, Holds-get, taken-get}

Holds-new : (a : ℕ) → a < 2 ^ 62 → Holds a 0 (new_rate (pos a))
unfolding new_rate ◌+ℤ◌ wrap64
Holds-new a small = ground arith

Holds-step :
    (a s : ℕ) (r : Rate) (e : Event)
    → a < 2 ^ 62
    → Holds a s r
    → Holds a (bucket_step a e s).0 (step e r).0 × ((step e r).1 ≡ (bucket_step a e s).1)
unfolding step
Holds-step a s r tick small h = (Holds-session a s r small h, unfold bucket_step in refl)
Holds-step a s r (ask n) small h = (Holds-get a s r small h n, taken-get a s r small h n)

-- Over any schedule in which nothing comes between a test and its subtraction, the bucket is the abstract
-- bucket, and lets the same bytes through: no sum of the 64-bit code overflows while a refill is below 2^62.
pub run-bucket_run :
    (a s : ℕ) (r : Rate) (es : List Event)
    → a < 2 ^ 62
    → Holds a s r
    → Holds a (bucket_run a es s).0 (run es r).0 × ((run es r).1 ≡ (bucket_run a es s).1)
unfolding run bucket_run
run-bucket_run a s r [] small h = (h, refl)
run-bucket_run a s r (e ∷ es) small h =
    let (h', p) = Holds-step a s r e small h in
    let (h'', q) = run-bucket_run a (bucket_step a e s).0 (step e r).0 es small h' in
    (h'', omega (arith, p, q))

-- A request of at most two refills is let through after two ticks in which nobody else takes:
-- after any schedule on a new bucket, they make the look of `Get` succeed.
pub get_served :
    (a n : ℕ) (es : List Event)
    → a < 2 ^ 62
    → n ≤ a + a
    → (get (pos n) (session (session (run es (new_rate (pos a))).0))).1 ≡ true
unfolding get
get_served a n es small fits =
    let r = (run es (new_rate (pos a))).0 in
    let s = (bucket_run a es 0).0 in
    let h = (run-bucket_run a 0 (new_rate (pos a)) es small (Holds-new a small)).0 in
    let h' = Holds-session a s r small h in
    let h'' = Holds-session a (bucket_step a tick s).0 (session r) small h' in
    unfold bucket_step in ground (arith, h''.surplus)
