-- ===== src/Proxy/Admission.antt =====
-- server/proxy/base.go: whom the checks let in.
use nps_socks.Prelude.{
  ◌+ℤ◌, wrap64, scale, wrap32, ℕ, ◌<◌, Option, ◌^◌, ◌≡◌, ◌+◌, false, Bool-cases, pos, some, inl,
  ltb, true, inr, ◌&&◌, none, ◌*◌, arith, refl,
}
use nps_socks.Proxy.{
  exceeds, check_flow_and_conn_num, Denied, traffic_exceeded, connections_exceeded, port_expired,
}
use nps_socks.File.Obj.{Client, Flow}
use nps_socks.File.Conns.Quota.{Counts}
use nps_socks.File.Conns.{get_conn, cut_conn}

-- A limit of `l` megabytes below 2^43 is exceeded exactly when it is set and the bytes counted, fewer
-- than 2^63, are more than `l` times 2^20: neither the shift nor the sum overflows.
pub exceeds-ltb :
    (l export inlet limit : ℕ)
    → l < 2 ^ 43
    → export + inlet < 2 ^ 63
    → exceeds
        (pos l)
        (record { export_flow = pos export; inlet_flow = pos inlet; flow_limit = pos limit })
      ≡ ltb 0 l && ltb (l * 2 ^ 20) (export + inlet)
unfolding ◌+ℤ◌ wrap64 scale
exceeds-ltb l export inlet limit small fits = ground arith

-- What the checks say of a client with `held` connections and a limit of `m`.
abbrev pub Admission : ℕ → ℕ → Flow → Client → Client × Option Denied → Type 0
Admission m held flow client (client', none) =
    (exceeds flow.flow_limit flow ≡ false)
    × (held < m)
    × Counts m (held + 1) client'.now_conn client'.max_conn
Admission m held flow client (client', some traffic_exceeded) =
    (exceeds flow.flow_limit flow ≡ true) × (client' ≡ client)
Admission m held flow client (client', some connections_exceeded) =
    (exceeds flow.flow_limit flow ≡ false) × (held ≡ m) × (client' ≡ client)
Admission m held flow client (client', some port_expired) = ⊥

module _ (m held : ℕ) (client : Client) (positive : 0 < m) (small : m < 2 ^ 31)
    (h : Counts m held client.now_conn client.max_conn) where
  get_conn-Counts :
      (get_conn client).1 ≡ true
      → (held < m) × Counts m (held + 1) (get_conn client).0.now_conn (get_conn client).0.max_conn
  unfolding get_conn cut_conn ◌+ℤ◌ wrap32
  get_conn-Counts ok = ground arith

  get_conn_full : (get_conn client).1 ≡ false → (held ≡ m) × ((get_conn client).0 ≡ client)
  unfolding get_conn
  get_conn_full full = ground arith

-- For a client whose counter is the number of its connections, with a limit between 1 and 2^31 - 1:
-- the checks let a connection in only if the flow is within its limit and fewer connections than the
-- limit are open, and then count it; a refusal names the limit that is reached and changes nothing.
pub check_flow_and_conn_num-Admission :
    (m held : ℕ) (flow : Flow) (client : Client)
    → 0 < m
    → m < 2 ^ 31
    → Counts m held client.now_conn client.max_conn
    → Admission m held flow client (check_flow_and_conn_num flow client)
unfolding check_flow_and_conn_num
check_flow_and_conn_num-Admission m held flow client positive small h =
    elim (Bool-cases (exceeds flow.flow_limit flow)) [
      | inl over ↦ rw over (over, refl)
      | inr within ↦ elim (Bool-cases (get_conn client).1) [
        | inl ok ↦
            let (free, counted) = get_conn-Counts m held client positive small h ok in
            rw (within, ok) (within, free, counted)
        | inr full ↦
            let (all, same) = get_conn_full m held client positive small h full in
            rw (within, full) (within, all, same)
      ]
    ]
