-- ===== src/Bridge/TypeDeal.antt =====
-- bridge/bridge.go, `typeDeal`: what a connection is for, by its flag. `c` is its handle and `mux` that of
-- the multiplexer that is made over it.
use nps_socks.File.Clients.{is_pub_client}
use nps_socks.Net.{Chunks}
use nps_socks.File.Tasks.{get_task_by_md5_password}
use nps_socks.SyncMap.{load, store, load-store}
use nps_socks.File.Obj.{Tunnel, Client}
use nps_socks.Wire.{get_short_content}
use nps_socks.File.JsonDb.{JsonDb, get_client}
use nps_socks.Prelude.{
  List, ℕ, Text, Option, beq_text, Bool, [], ℤ, some, none, if◌then◌else◌, ◌==◌, ◌∷◌, codes, ◌≡◌,
  not, false, ◌&&◌, text_eq, Option-cases, inl, inr, int_eq, refl,
}
use nps_socks.Bridge.{
  Bridge, Event, work_main, work_chan, work_file, BridgeClient, make_bridge_client, close,
  write_close_of,
}

-- What follows: nothing more, or one of the loops that read on from the connection, a visitor handed to
-- the server, a visitor introduced to the client with a signal connection, or a panic.
pub data Work : Type 0 where
  done : Bridge → List Event → Work
  reads_health : Bridge → List Event → Work
  reads_config : Bool → Client → Work
  reads_hours : Work
  sends_secret introduces : Text → ℕ → Work
  panics : Work

-- `WORK_CONFIG`: the client must be public or allow it.
abbrev pub work_config : ℕ → Bool → Option Client → Bridge → Work
work_config c is_pub none s = done s (close c ∷ [])
work_config c is_pub (some client) s =
    if not is_pub && not client.config_conn_allow
    then done s (close c ∷ [])
    else reads_config is_pub client

abbrev pub work_secret : ℕ → Option Text → Bridge → Work
work_secret c none s = done s []
work_secret c (some key) s = sends_secret key c

-- `WORK_P2P`: the signal connection is written to without a test against nil.
abbrev pub signal_to : Text → Option ℕ → Work
signal_to key none = panics
signal_to key (some signal) = introduces key signal

abbrev pub introduced : Text → Option Tunnel → Bridge → Work
introduced key none s = done s []
introduced key (some t) s = elim (load t.client.id s.client) [
  | none ↦ done s []
  | some v ↦ signal_to key v.signal
]

abbrev pub work_p2p : (Text → Text) → JsonDb → Option Text → Bridge → Work
work_p2p md5 db none s = done s []
work_p2p md5 db (some key) s = introduced key (get_task_by_md5_password md5 key db) s

abbrev pub work_main_deal : JsonDb → ℕ → ℤ → Text → Bridge → Work
work_main_deal db c id vs s =
    let (b, events) = work_main db c id vs s in
    if is_pub_client id db then done b events else reads_health b events

unfoldable pub type_deal : (Text → Text) → Text → ℕ → ℕ → ℤ → Text → Chunks → JsonDb → Bridge → Work
unfolding work_main work_chan work_file get_short_content
type_deal md5 flag c mux id vs cs db s =
    if flag == codes "main"
    then work_main_deal db c id vs s
    else if flag == codes "chan"
    then done (work_chan mux id vs s) []
    else if flag == codes "conf"
    then work_config c (is_pub_client id db) (get_client id db) s
    else if flag == codes "rgst"
    then reads_hours
    else if flag == codes "sert"
    then work_secret c (get_short_content 32 cs).1 s
    else if flag == codes "file"
    then done (work_file mux id vs s) []
    else if flag == codes "p2pm"
    then work_p2p md5 db (get_short_content 32 cs).1 s
    else done s []

abbrev pub signal_of : Option BridgeClient → Option ℕ
signal_of none = none
signal_of (some v) = v.signal

-- What the entry of a client becomes with a new signal connection.
abbrev pub signalled : ℕ → Text → Option BridgeClient → BridgeClient
signalled c vs none = make_bridge_client none none (some c) vs
signalled c vs (some v) = record v { signal = some c; version = vs }

-- The connection for the signals of a client that is not public becomes the client's only one: its entry
-- gets the new connection and version and keeps its tunnels, the connection of before is told to
-- close, no other client's entry changes, and the loop that reads the client's health starts.
pub type_deal-main :
    (md5 : Text → Text) (c mux : ℕ) (id : ℤ) (vs : Text) (cs : Chunks) (db : JsonDb) (s : Bridge)
    → is_pub_client id db ≡ false
    → (b : Bridge) × (type_deal md5 (codes "main") c mux id vs cs db s
        ≡ reads_health b (write_close_of (signal_of (load id s.client))))
      × ((k : ℤ)
          → load k b.client
            ≡ (if id == k then some (signalled c vs (load id s.client)) else load k s.client))
unfolding type_deal work_main beq_text
type_deal-main md5 c mux id vs cs db s private = elim (Option-cases (load id s.client)) [
  | inl absent ↦
      let v' = make_bridge_client none none (some c) vs in
      (
        record s { client = store id v' s.client },
        rw (work_main, private, absent) refl,
        λ k. rw absent (load-store id k v' s.client),
      )
  | inr (v, at) ↦
      let v' = record v { signal = some c; version = vs } in
      (
        record s { client = store id v' s.client },
        rw (work_main, private, at) refl,
        λ k. rw at (load-store id k v' s.client),
      )
]
