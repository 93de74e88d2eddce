-- ===== src/Bridge/Pings.antt =====
-- bridge/bridge.go, `ping`: which clients are dropped.
use nps_socks.File.JsonDb.{JsonDb}
use nps_socks.Common.Arrays.{in_int_arr}
use nps_socks.SyncMap.{load, Table, Distinct, load-delete, delete-Distinct}
use nps_socks.Prelude.{
  ℕ, Bool, Option, ℤ, List, false, ◌≡◌, some, none, ◌∷◌, if◌then◌else◌, arith, ◌==◌, ==_iff,
  Option-cases, [], refl, inl, inr, int_eq, ◌∙◌, ap, wrap64, pos, suc, ◌+ℤ◌, zero, leb_ℤ, true,
}
use nps_socks.Bridge.{
  Bridge, ping, BridgeClient, ping_one, ping_all, del_client, del_clients, lacks_one,
  tunnel_is_close,
}

-- What a tick leaves of a client.
abbrev pub survivor : (ℕ → Bool) → Option BridgeClient → Option BridgeClient
survivor is_close none = none
survivor is_close (some v) =
    let (v', closed) = ping_one is_close v in if closed then none else some v'

abbrev ticked : (ℕ → Bool) → Option BridgeClient → Option BridgeClient
ticked is_close none = none
ticked is_close (some v) = some (ping_one is_close v).0

abbrev is_due : (ℕ → Bool) → Option BridgeClient → Bool
is_due is_close none = false
is_due is_close (some v) = (ping_one is_close v).1

ticked-survivor :
    (is_close : ℕ → Bool) (o : Option BridgeClient)
    → (if is_due is_close o then none else ticked is_close o) ≡ survivor is_close o
ticked-survivor is_close none = refl
ticked-survivor is_close (some v) = refl

load-ping_all :
    (is_close : ℕ → Bool) (k : ℤ) (m : Table BridgeClient)
    → load k (ping_all is_close m).0 ≡ ticked is_close (load k m)
unfolding load
load-ping_all is_close k [] = refl
load-ping_all is_close k ((j, v) ∷ m) = ground (arith, load-ping_all is_close k m, ==_iff j k)

-- The ids that are due.
in_int_arr-ping_all :
    (is_close : ℕ → Bool) (k : ℤ) (m : Table BridgeClient)
    → Distinct m
    → in_int_arr (ping_all is_close m).1 k ≡ is_due is_close (load k m)
unfolding load in_int_arr
in_int_arr-ping_all is_close k [] d = refl
in_int_arr-ping_all is_close k ((j, v) ∷ m) d =
    ground (arith, in_int_arr-ping_all is_close k m d.1, ==_iff j k, d.0)

load-del_client :
    (db : JsonDb) (id k : ℤ) (s : Bridge)
    → load k (del_client db id s).0.client ≡ (if id == k then none else load k s.client)
unfolding del_client
load-del_client db id k s = elim (Option-cases (load id s.client)) [
  | inl absent ↦ rw (del_client, absent) (ground (arith, absent, ==_iff id k))
  | inr (v, at) ↦ rw (del_client, at) (load-delete id k s.client)
]

load-del_clients :
    (db : JsonDb) (ids : List ℤ) (k : ℤ) (s : Bridge)
    → load k (del_clients db ids s).0.client ≡ (if in_int_arr ids k then none else load k s.client)
unfolding in_int_arr
load-del_clients db [] k s = refl
load-del_clients db (id ∷ ids) k s =
    ground (arith, load-del_clients db ids k (del_client db id s).0, load-del_client db id k s)

ping_all-Distinct :
    (is_close : ℕ → Bool) (m : Table BridgeClient) → Distinct m → Distinct (ping_all is_close m).0
ping_all-Distinct is_close [] d = tt
ping_all-Distinct is_close ((k, v) ∷ m) d =
    (load-ping_all is_close k m ∙ ap (ticked is_close) d.0, ping_all-Distinct is_close m d.1)

del_clients-Distinct :
    (db : JsonDb) (ids : List ℤ) (s : Bridge)
    → Distinct s.client
    → Distinct (del_clients db ids s).0.client
unfolding del_client
del_clients-Distinct db [] s d = d
del_clients-Distinct db (id ∷ ids) s d =
    del_clients-Distinct db ids (del_client db id s).0 (elim (Option-cases (load id s.client)) [
      | inl absent ↦ rw (del_client, absent) d
      | inr (v, at) ↦ rw (del_client, at) (delete-Distinct id s.client d)
    ])

-- A tick leaves of each client what the test of one client leaves, and the table has each id once.
ping-survivor :
    (is_close : ℕ → Bool) (db : JsonDb) (s : Bridge)
    → Distinct s.client
    → ((k : ℤ) → load k (ping is_close db s).0.client ≡ survivor is_close (load k s.client))
      × Distinct (ping is_close db s).0.client
unfolding ping
ping-survivor is_close db s d =
    let s₁ = record s { client = (ping_all is_close s.client).0 } in
    let ids = (ping_all is_close s.client).1 in
    (
      λ k.
          load-del_clients db ids k s₁
          ∙ rw (in_int_arr-ping_all is_close k s.client d, load-ping_all is_close k s.client)
              (ticked-survivor is_close (load k s.client)),
      del_clients-Distinct db ids s₁ (ping_all-Distinct is_close s.client d),
    )

-- A tick of a client that lacks its tunnel or its signal connection.
half_tick :
    (is_close : ℕ → Bool) (db : JsonDb) (k r : ℤ) (v : BridgeClient) (s : Bridge)
    → Distinct s.client
    → load k s.client ≡ some v
    → lacks_one v ≡ true
    → wrap64 (v.retry_time +ℤ pos 1) ≡ r
    → load k (ping is_close db s).0.client
      ≡ (if leb_ℤ (pos 3) r then none else some (record v { retry_time = r }))
unfolding ping_one
half_tick is_close db k r v s d at half e =
    (ping-survivor is_close db s d).0 k ∙ rw (at, ping_one, half, e) refl

-- Ticks of `ping`, with the states of the multiplexers at each.
abbrev pub pings : (ℕ → ℕ → Bool) → JsonDb → ℕ → Bridge → Bridge
pings is_close db zero s = s
pings is_close db (suc n) s = (ping (is_close n) db (pings is_close db n s)).0

pings-Distinct :
    (is_close : ℕ → ℕ → Bool) (db : JsonDb) (n : ℕ) (s : Bridge)
    → Distinct s.client
    → Distinct (pings is_close db n s).client
pings-Distinct is_close db zero s d = d
pings-Distinct is_close db (suc n) s d =
    (ping-survivor (is_close n) db (pings is_close db n s) (pings-Distinct is_close db n s d)).1

load-whole :
    (is_close : ℕ → ℕ → Bool) (db : JsonDb) (k : ℤ) (v : BridgeClient) (s : Bridge)
    → Distinct s.client
    → load k s.client ≡ some v
    → (t c : ℕ) → v.tunnel ≡ some t
    → v.signal ≡ some c
    → ((n : ℕ) → is_close n t ≡ false)
    → (n : ℕ) → load k (pings is_close db n s).client ≡ some v
unfolding ping_one
load-whole is_close db k v s d at t c tunnel signal stays zero = at
load-whole is_close db k v s d at t c tunnel signal stays (suc n) =
    let before = load-whole is_close db k v s d at t c tunnel signal stays n in
    let whole : lacks_one v ≡ false = rw (tunnel, signal) refl in
    let stays_open : tunnel_is_close (is_close n) v.tunnel ≡ false = rw tunnel (stays n) in
    (ping-survivor (is_close n) db (pings is_close db n s) (pings-Distinct is_close db n s d)).0 k
    ∙ rw (before, ping_one, whole, stays_open) refl

-- A client that was just added and lacks its tunnel or its signal connection is still there after two
-- ticks of the timer, with the ticks counted, and gone after the third; a client that has both, and
-- whose tunnel is open at each tick, stays as it is through any number of ticks. The table has each
-- client once.
pub load-pings :
    (is_close : ℕ → ℕ → Bool) (db : JsonDb) (k : ℤ) (v : BridgeClient) (s : Bridge)
    → Distinct s.client
    → load k s.client ≡ some v
    → (lacks_one v ≡ true
        → v.retry_time ≡ pos 0
        → (load k (pings is_close db 2 s).client ≡ some (record v { retry_time = pos 2 }))
          × (load k (pings is_close db 3 s).client ≡ none))
      × ((t c : ℕ)
          → v.tunnel ≡ some t
          → v.signal ≡ some c
          → ((n : ℕ) → is_close n t ≡ false)
          → (n : ℕ) → load k (pings is_close db n s).client ≡ some v)
unfolding wrap64 ◌+ℤ◌
load-pings is_close db k v s d at = (
  λ half fresh.
      let d₁ = pings-Distinct is_close db 1 s d in
      let d₂ = pings-Distinct is_close db 2 s d in
      let one =
        half_tick (is_close 0) db k (pos 1) v s d at half (ap (λ r. wrap64 (r +ℤ pos 1)) fresh) in
      let two =
        half_tick (is_close 1) db k (pos 2) (record v { retry_time = pos 1 })
          (pings is_close db 1 s) d₁ one half refl in
      (
        two,
        half_tick (is_close 2) db k (pos 3) (record v { retry_time = pos 2 })
            (pings is_close db 2 s) d₂ two half refl,
      ),
  λ t c tunnel signal stays n. load-whole is_close db k v s d at t c tunnel signal stays n,
)
