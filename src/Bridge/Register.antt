-- ===== src/Bridge/Register.antt =====
-- bridge/bridge.go: a registered address may use the server until its hours have passed.
use nps_socks.SyncMap.{load}
use nps_socks.File.Obj.{Tunnel}
use nps_socks.Common.Addr.{get_ip_by_addr}
use nps_socks.Net.{Chunks}
use nps_socks.Prelude.{
  Text, ℤ, List, ◌≡◌, some, if◌then◌else◌, ◌==◌, not, none, ◌∷◌, arith, ==_iff, ltb_ℤ, ◌+ℤ◌,
  text_eq, [], refl, Bool-cases, inr, inl, ℕ, Bool, Option, true, false, ◌⊎◌, Option-cases, ap, ◌∙◌,
}
use nps_socks.Bridge.{
  Bridge, send_link_info, register_ip, load_ip, store_ip, ip_refused, hours, expired, Link, dialed,
  not_connected, BridgeClient, Sent, send_to,
}
use nps_socks.Wire.{get_len}

load_ip-store_ip :
    (ip j : Text) (v : ℤ) (m : List (Text × ℤ))
    → load_ip j (store_ip ip v m) ≡ (if ip == j then some v else load_ip j m)
load_ip-store_ip ip j v [] = refl
load_ip-store_ip ip j v ((k, w) ∷ m) =
    ground (arith, load_ip-store_ip ip j v m, ==_iff k ip, ==_iff k j, ==_iff ip j)

-- The answer to an address that comes from a registered IP or from another one.
ip_refused-register_ip :
    (addr other : Text) (now later hour : ℤ) (cs : Chunks) (s : Bridge)
    → (get_len cs).1 ≡ some hour
    → ip_refused other later (register_ip addr now cs s) ≡ (
        if not s.ip_verify
        then none
        else if get_ip_by_addr addr == get_ip_by_addr other
        then (if ltb_ℤ later (now +ℤ hours hour) then none else some expired)
        else ip_refused other later s)
unfolding register_ip
ip_refused-register_ip addr other now later hour cs s h = elim (Bool-cases s.ip_verify) [
  | inr free ↦ rw (register_ip, h, free) refl
  | inl checked ↦
      rw
        (
          register_ip,
          h,
          checked,
          load_ip-store_ip (get_ip_by_addr addr) (get_ip_by_addr other) (now +ℤ hours hour)
              s.register,
        )
        (elim (Bool-cases (get_ip_by_addr addr == get_ip_by_addr other)) [
          | inl same ↦ rw same refl
          | inr differs ↦ rw differs refl
        ])
]

client-register_ip :
    (addr : Text) (now hour : ℤ) (cs : Chunks) (s : Bridge)
    → (get_len cs).1 ≡ some hour
    → (register_ip addr now cs s).client ≡ s.client
unfolding register_ip
client-register_ip addr now hour cs s h = rw (register_ip, h) refl

-- Of the bridge, only the client and the answer to the address are read.
send_link_info_same :
    (new_conn sends : ℕ → Bool) (now client_id : ℤ) (link : Link) (t : Option Tunnel)
    (s s' : Bridge)
    → load client_id s.client ≡ load client_id s'.client
    → ip_refused link.remote_addr now s ≡ ip_refused link.remote_addr now s'
    → send_link_info new_conn sends now client_id link t s
      ≡ send_link_info new_conn sends now client_id link t s'
unfolding send_link_info
send_link_info_same new_conn sends now client_id link t s s' e f =
    let sent = λ (c : Option BridgeClient) (r : Option Sent).
      if link.local_proxy then dialed link.host else send_to new_conn sends link t c r in
    ap (λ c. sent c (ip_refused link.remote_addr now s)) e ∙ ap (sent (load client_id s'.client)) f

refused_late :
    (new_conn sends : ℕ → Bool) (now client_id : ℤ) (link : Link) (t : Option Tunnel) (s : Bridge)
    → ip_refused link.remote_addr now s ≡ some expired
    → (send_link_info new_conn sends now client_id link t s ≡ dialed link.host)
      ⊎ (send_link_info new_conn sends now client_id link t s ≡ expired)
      ⊎ (send_link_info new_conn sends now client_id link t s ≡ not_connected)
unfolding send_link_info
refused_late new_conn sends now client_id link t s e = elim (Bool-cases link.local_proxy) [
  | inl own ↦ inl (rw (send_link_info, own) refl)
  | inr remote ↦ elim (Option-cases (load client_id s.client)) [
    | inl absent ↦ inr (inr (rw (send_link_info, remote, absent) refl))
    | inr (v, at) ↦ inr (inl (rw (send_link_info, remote, at, e) refl))
  ]
]

-- After a client has registered its address for some hours, a link whose address has the same IP is
-- sent until they have passed as if nothing were verified, and after that no connection is opened for
-- it but one that the server dials itself; a link from another IP is sent as before.
pub send_link_info-register_ip :
    (new_conn sends : ℕ → Bool) (addr : Text) (now later hour client_id : ℤ) (link : Link)
    (t : Option Tunnel) (cs : Chunks) (s : Bridge)
    → (get_len cs).1 ≡ some hour
    → (((get_ip_by_addr addr == get_ip_by_addr link.remote_addr) ≡ true)
        → ltb_ℤ later (now +ℤ hours hour) ≡ true
        → send_link_info new_conn sends later client_id link t (register_ip addr now cs s)
          ≡ send_link_info new_conn sends later client_id link t (record s { ip_verify = false }))
      × (((get_ip_by_addr addr == get_ip_by_addr link.remote_addr) ≡ true)
          → ltb_ℤ later (now +ℤ hours hour) ≡ false
          → s.ip_verify ≡ true
          → (send_link_info new_conn sends later client_id link t (register_ip addr now cs s)
              ≡ dialed link.host)
            ⊎ (send_link_info new_conn sends later client_id link t (register_ip addr now cs s)
                ≡ expired)
            ⊎ (send_link_info new_conn sends later client_id link t (register_ip addr now cs s)
                ≡ not_connected))
      × (((get_ip_by_addr addr == get_ip_by_addr link.remote_addr) ≡ false)
          → send_link_info new_conn sends later client_id link t (register_ip addr now cs s)
            ≡ send_link_info new_conn sends later client_id link t s)
unfolding send_link_info
send_link_info-register_ip new_conn sends addr now later hour client_id link t cs s h =
    let r = ip_refused-register_ip addr link.remote_addr now later hour cs s h in
    let c = client-register_ip addr now hour cs s h in
    (
      λ same early.
          send_link_info_same new_conn sends later client_id link t (register_ip addr now cs s)
            (record s { ip_verify = false }) (ap (load client_id) c)
            (elim (Bool-cases s.ip_verify) [
              | inl checked ↦ r ∙ rw (checked, same, early) refl
              | inr free ↦ r ∙ rw free refl
            ]),
      λ same late checked.
          refused_late new_conn sends later client_id link t (register_ip addr now cs s)
            (r ∙ rw (checked, same, late) refl),
      λ differs.
          send_link_info_same new_conn sends later client_id link t (register_ip addr now cs s) s
            (ap (load client_id) c)
            (elim (Bool-cases s.ip_verify) [
              | inl checked ↦ r ∙ rw (checked, differs) refl
              | inr free ↦ r ∙ rw free refl
            ]),
    )
