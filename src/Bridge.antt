-- ===== src/Bridge.antt =====
-- bridge/bridge.go: the clients that are connected, and the connections that are opened to them. A
-- connection and a multiplexer of lib/nps_mux are handles, numbers; time is in nanoseconds.
pub mod CliProcess
pub mod GetConfig
pub mod NewTask
pub mod Pings
pub mod Register
pub mod Session
pub mod Tables
pub mod TypeDeal
use nps_socks.Common.Addr.{get_ip_by_addr}
use nps_socks.File.Obj.{Tunnel}
use nps_socks.Net.{Chunks}
use nps_socks.Wire.{get_len}
use nps_socks.File.JsonDb.{JsonDb, get_client}
use nps_socks.SyncMap.{Table, load, store, delete}
use nps_socks.Prelude.{
  Text, Option, ℕ, List, ℤ, Bool, pos, [], ◌∷◌, none, wrap64, if◌then◌else◌, true, ◌+ℤ◌, ◌++◌, ◌==◌,
  scale, false, some, leb_ℤ, ltb_ℤ, codes, not, text_eq, ◌||◌,
}
use nps_socks.File.Clients.{is_pub_client}

-- lib/conn/link.go; `timeout` is `Option.Timeout`
pub record Link : Type 0 where
  pub conn_type : Text
  pub host : Text
  pub crypt : Bool
  pub compress : Bool
  pub local_proxy : Bool
  pub remote_addr : Text
  pub timeout : ℤ

-- `Client` of the bridge: `none` is nil.
pub record BridgeClient : Type 0 where
  pub tunnel : Option ℕ
  pub signal : Option ℕ
  pub file : Option ℕ
  pub version : Text
  pub retry_time : ℤ

-- `NewClient(t, f, s, vs)`
abbrev pub make_bridge_client : Option ℕ → Option ℕ → Option ℕ → Text → BridgeClient
make_bridge_client t f s vs = record {
  tunnel = t;
  signal = s;
  file = f;
  version = vs;
  retry_time = pos 0;
}

-- What the bridge does to a connection, and what it sends to the server.
pub data Event : Type 0 where
  close : ℕ → Event
  write_close : ℕ → Event
  close_client_sent : ℤ → Event

pub record Bridge : Type 0 where
  pub client : Table BridgeClient
  pub register : List (Text × ℤ)
  pub ip_verify : Bool

abbrev pub Acts : Type 0
Acts = Bridge × List Event

abbrev pub close_of : Option ℕ → List Event
close_of none = []
close_of (some c) = close c ∷ []

abbrev pub write_close_of : Option ℕ → List Event
write_close_of none = []
write_close_of (some c) = write_close c ∷ []

abbrev pub is_nil : Option ℕ → Bool
is_nil none = true
is_nil (some n) = false

-- The message that a client is gone, unless it is public or unknown.
abbrev pub announced : ℤ → JsonDb → List Event
announced id db =
    if is_pub_client id db
    then []
    else elim (get_client id db) [ none ↦ [] | some c ↦ close_client_sent c.id ∷ [] ]

unfoldable pub del_client : JsonDb → ℤ → Bridge → Acts
del_client db id s = elim (load id s.client) [
  | none ↦ (s, [])
  | some v ↦ (record s { client = delete id s.client }, close_of v.signal ++ announced id db)
]

-- The branches of `typeDeal` that set up a client. For `WORK_MAIN` the signal connection of before is
-- closed; a public client has none.
unfoldable pub work_main : JsonDb → ℕ → ℤ → Text → Bridge → Acts
work_main db c id vs s =
    if is_pub_client id db then (s, close c ∷ []) else elim (load id s.client) [
      | none ↦
          (record s { client = store id (make_bridge_client none none (some c) vs) s.client }, [])
      | some v ↦ (
        record s { client = store id (record v { signal = some c; version = vs }) s.client },
        write_close_of v.signal,
      )
    ]

unfoldable pub work_chan : ℕ → ℤ → Text → Bridge → Bridge
work_chan mux id vs s = elim (load id s.client) [
  | none ↦ record s { client = store id (make_bridge_client (some mux) none none vs) s.client }
  | some v ↦ record s { client = store id (record v { tunnel = some mux }) s.client }
]

unfoldable pub work_file : ℕ → ℤ → Text → Bridge → Bridge
work_file mux id vs s = elim (load id s.client) [
  | none ↦ record s { client = store id (make_bridge_client none (some mux) none vs) s.client }
  | some v ↦ record s { client = store id (record v { file = some mux }) s.client }
]

-- `v.tunnel == nil || v.signal == nil`, and `v.tunnel.IsClose`
abbrev pub lacks_one : BridgeClient → Bool
lacks_one v = is_nil v.tunnel || is_nil v.signal

abbrev pub tunnel_is_close : (ℕ → Bool) → Option ℕ → Bool
tunnel_is_close is_close none = false
tunnel_is_close is_close (some t) = is_close t

-- One client at a tick of `ping`: what is left of it, and whether it is to be closed.
unfoldable pub ping_one : (ℕ → Bool) → BridgeClient → BridgeClient × Bool
ping_one is_close v =
    let r = wrap64 (v.retry_time +ℤ pos 1) in
    if lacks_one v
    then (record v { retry_time = r }, leb_ℤ (pos 3) r)
    else (v, tunnel_is_close is_close v.tunnel)

abbrev pub ping_all : (ℕ → Bool) → Table BridgeClient → Table BridgeClient × List ℤ
ping_all is_close [] = ([], [])
ping_all is_close ((k, v) ∷ m) =
    let (rest, ids) = ping_all is_close m in
    let (v', closed) = ping_one is_close v in ((k, v') ∷ rest, if closed then k ∷ ids else ids)

abbrev pub del_clients : JsonDb → List ℤ → Bridge → Acts
del_clients db [] s = (s, [])
del_clients db (id ∷ ids) s =
    let (s₁, events) = del_client db id s in
    let (s₂, more) = del_clients db ids s₁ in (s₂, events ++ more)

-- One tick of `ping`; `is_close` is the state of the multiplexers.
unfoldable pub ping : (ℕ → Bool) → JsonDb → Bridge → Acts
unfolding ping_one del_client
ping is_close db s =
    let (m, ids) = ping_all is_close s.client in del_clients db ids (record s { client = m })

abbrev pub load_ip : Text → List (Text × ℤ) → Option ℤ
load_ip ip [] = none
load_ip ip ((k, v) ∷ m) = if k == ip then some v else load_ip ip m

abbrev pub store_ip : Text → ℤ → List (Text × ℤ) → List (Text × ℤ)
store_ip ip v [] = (ip, v) ∷ []
store_ip ip v ((k, w) ∷ m) = if k == ip then (ip, v) ∷ m else (k, w) ∷ store_ip ip v m

-- `time.Hour * time.Duration(hour)`
abbrev pub hours : ℤ → ℤ
hours hour = wrap64 (scale 3600000000000 hour)

-- The hours are read as an `int32`.
unfoldable pub register_ip : Text → ℤ → Chunks → Bridge → Bridge
unfolding get_len
register_ip addr now cs s = elim (get_len cs).1 [
  | none ↦ s
  | some hour ↦ record s {
    register = store_ip (get_ip_by_addr addr) (now +ℤ hours hour) s.register;
  }
]

-- `opened`: a connection of the multiplexer, whether the link was sent over it, and the link afterwards.
pub data Sent : Type 0 where
  dialed : Text → Sent
  opened : ℕ → Bool → Link → Sent
  not_in_list expired no_tunnel no_conn not_sent not_connected : Sent

-- The address may be used: `none` is that it may.
abbrev pub ip_refused : Text → ℤ → Bridge → Option Sent
ip_refused addr now s =
    if s.ip_verify
    then elim (load_ip (get_ip_by_addr addr) s.register) [
      | none ↦ some not_in_list
      | some until ↦ if ltb_ℤ now until then none else some expired
    ]
    else none

abbrev pub is_file_mode : Option Tunnel → Bool
is_file_mode none = false
is_file_mode (some t) = t.mode == codes "file"

-- Over the multiplexer: `new_conn` and `sends` are whether it opens a connection and the link can be
-- sent over that.
abbrev pub send_over : (ℕ → Bool) → (ℕ → Bool) → Link → Option Tunnel → Option ℕ → Sent
send_over new_conn sends link t none = no_tunnel
send_over new_conn sends link t (some mux) =
    if not (new_conn mux)
    then no_conn
    else if is_file_mode t
    then opened mux false (record link { crypt = false; compress = false })
    else if sends mux
    then opened mux true link
    else not_sent

-- To the client, if it is connected and the address may be used.
abbrev pub send_to :
    (ℕ → Bool) → (ℕ → Bool) → Link → Option Tunnel → Option BridgeClient → Option Sent → Sent
send_to new_conn sends link t none refusal = not_connected
send_to new_conn sends link t (some v) (some refusal) = refusal
send_to new_conn sends link t (some v) none =
    send_over new_conn sends link t (if is_file_mode t then v.file else v.tunnel)

unfoldable pub send_link_info :
    (ℕ → Bool) → (ℕ → Bool) → ℤ → ℤ → Link → Option Tunnel → Bridge → Sent
send_link_info new_conn sends now client_id link t s =
    if link.local_proxy
    then dialed link.host
    else send_to new_conn sends link t (load client_id s.client) (ip_refused link.remote_addr now s)
