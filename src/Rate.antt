-- ===== src/Rate.antt =====
-- lib/rate/rate.go: the token bucket of a client. `Get` and `add` take no lock between what they read and
-- what they write: `get`, `add` and `session` are the calls that nothing comes between, and Racing has the
-- reads and the writes as steps of many callers. `sessions` counts the goroutines of `Start`, which `Stop` ends over the unbuffered channel.
pub mod Bucket
pub mod Limit
pub mod Racing
use nps_socks.Prelude.{
  ℕ, suc, zero, ◌+◌, ◌-◌, Bool, true, false, Option, none, some, List, [], ◌∷◌, ℤ, pos, ◌+ℤ◌, ◌-ℤ◌,
  wrap64, leb_ℤ, ltb_ℤ, if◌then◌else◌,
}

pub record Rate : Type 0 where
  pub bucket_size : ℤ
  pub bucket_surplus_size : ℤ
  pub bucket_add_size : ℤ
  pub sessions : ℕ
  pub now_rate : ℤ

-- `addSize * 2`
unfoldable pub new_rate : ℤ → Rate
new_rate add_size = record {
  bucket_size = wrap64 (add_size +ℤ add_size);
  bucket_surplus_size = pos 0;
  bucket_add_size = add_size;
  sessions = 0;
  now_rate = pos 0;
}

unfoldable pub start : Rate → Rate
start r = record r { sessions = r.sessions + 1 }

-- `Stop` blocks where no session is there to receive.
unfoldable pub stop : Rate → Option Rate
stop r = elim r.sessions [ zero ↦ none | suc n ↦ some (record r { sessions = n }) ]

-- What `add` adds, by what it reads.
abbrev pub addition : ℤ → Rate → ℤ
addition size r =
    let res = wrap64 (r.bucket_size -ℤ r.bucket_surplus_size) in
    if ltb_ℤ res r.bucket_add_size then res else size

-- `AddInt64` of the surplus
abbrev pub deposit : ℤ → Rate → Rate
deposit n r = record r { bucket_surplus_size = wrap64 (r.bucket_surplus_size +ℤ n) }

add : ℤ → Rate → Rate
add size r = deposit (addition size r) r

unfoldable pub return_bucket : ℤ → Rate → Rate
unfolding add
return_bucket size r = add size r

-- The test of `Get`, and what follows when it passes.
abbrev pub has_surplus : ℤ → Rate → Bool
has_surplus size r = leb_ℤ size r.bucket_surplus_size

abbrev pub withdraw : ℤ → Rate → Rate
withdraw size r = record r { bucket_surplus_size = wrap64 (r.bucket_surplus_size -ℤ size) }

-- One look of `Get` at the bucket, where nothing comes between its test and its subtraction: `true` if the
-- size was taken, `false` if it goes on waiting. Racing has the two as steps of their own.
unfoldable pub get : ℤ → Rate → Rate × Bool
get size r = if has_surplus size r then (withdraw size r, true) else (r, false)

-- One tick of a session.
unfoldable pub session : Rate → Rate
unfolding add
session r =
    let rs = wrap64 (r.bucket_add_size -ℤ r.bucket_surplus_size) in
    let rate = if ltb_ℤ (pos 0) rs then rs else wrap64 (r.bucket_size -ℤ r.bucket_surplus_size) in
    add r.bucket_add_size (record r { now_rate = rate })

-- What can happen to a bucket while no two use it at once.
pub data Event : Type 0 where
  tick : Event
  ask : ℕ → Event

unfoldable pub step : Event → Rate → Rate × ℕ
step tick r = (session r, 0)
step (ask n) r = let (r', taken) = get (pos n) r in (r', if taken then n else 0)

-- A schedule of ticks and looks: the bucket at the end, and the bytes that were let through.
unfoldable pub run : List Event → Rate → Rate × ℕ
run [] r = (r, 0)
run (e ∷ es) r = let (r', n) = step e r in let (r'', m) = run es r' in (r'', n + m)
