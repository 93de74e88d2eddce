-- ===== src/Server.antt =====
-- server/server.go: the tasks that run. A running service is an entry of `RunList`; what its sockets do
-- is not modelled. AddTask and InitFromCsv call each other through NewMode, so they run on fuel.
pub mod Booting
pub mod Closing
pub mod Consistent
pub mod Listing
pub mod Lifecycle
pub mod Starting
pub mod Stopping
use nps_socks.File.Clients.{refused, no_more_keys}
use nps_socks.File.Hosts.{del_host}
use nps_socks.ServerPort.{test_server_port}
use nps_socks.File.Tasks.{get_task_by_md5_password, update_task, get_task}
use nps_socks.SyncMap.{Table, values, delete, load, store}
use nps_socks.File.Obj.{Tunnel, make_client}
use nps_socks.File.Clients.{Added, added, new_client, del_client}
use nps_socks.File.JsonDb.{JsonDb, Codec}
use nps_socks.Prelude.{
  ℤ, Text, Option, List, Bool, codes, ℕ, ◌∷◌, some, if◌then◌else◌, ◌==◌, false, none, true, not,
  select, [], ◌||◌, pos, ◌&&◌, map, suc, zero, int_eq, text_eq,
}
use nps_socks.File.Tasks

-- What the program asks of its surroundings: whether a port can be listened on, the configuration, and
-- whether the Close of the service of an id succeeds.
pub record Env : Type 0 where
  pub udp_free : ℤ → Bool
  pub tcp_free : ℤ → Bool
  pub allow_ports : List ℤ
  pub public_vkey : Text
  pub closes : ℤ → Bool

pub data Process : Type 0 where
  process_tunnel process_http handle_trans : Process

pub data Service : Type 0 where
  tunnel_mode_server : Process → Service
  sock5_mode_server udp_mode_server web_server http_server : Service

-- `none` in the run list is nil.
pub record Server : Type 0 where
  pub db : JsonDb
  pub run_list : Table (Option Service)

abbrev pub http_host_server : Text
http_host_server = codes "httpHostServer"

abbrev pub web_server_mode : Text
web_server_mode = codes "webServer"

-- The modes of NewMode but "webServer".
abbrev pub plain_service : Text → Option Service
plain_service mode =
    if mode == codes "tcp" || mode == codes "file"
    then some (tunnel_mode_server process_tunnel)
    else if mode == codes "socks5"
    then some sock5_mode_server
    else if mode == codes "httpProxy"
    then some (tunnel_mode_server process_http)
    else if mode == codes "tcpTrans"
    then some (tunnel_mode_server handle_trans)
    else if mode == codes "udp"
    then some udp_mode_server
    else if mode == http_host_server
    then some http_server
    else none

-- The state afterwards and whether there was no error; `none` is that the fuel ended.
abbrev pub Outcome : Type 0
Outcome = Option (Server × Bool)

-- AddTask for an id, a port and a mode.
abbrev pub Adds : Type 0
Adds = ℤ → ℤ → Text → Server → Outcome

abbrev pub state_of : Outcome → Option Server
state_of none = none
state_of (some (s, ok)) = some s

-- AddTask for each running task; the errors are dropped.
abbrev pub add_each : Adds → List Tunnel → Option Server → Option Server
add_each add ts none = none
add_each add [] (some s) = some s
add_each add (t ∷ ts) (some s) =
    let next = add_each add ts (state_of (add t.id t.port t.mode s)) in
    let rest = add_each add ts (some s) in elim t.status [ true ↦ next | false ↦ rest ]

abbrev pub with_public : Added → Server → Server
with_public (added db c) s = record s { db = db; run_list = store c.id none s.run_list }
with_public (refused r) s = record s { run_list = store (pos 0) none s.run_list }
with_public no_more_keys s = s

abbrev pub is_secret_mode : Text → Bool
is_secret_mode mode = mode == codes "secret" || mode == codes "p2p"

module _ (codec : Codec) (e : Env) where
  abbrev pub port_opens : ℤ → Text → Bool
  port_opens port mode = test_server_port e.udp_free e.tcp_free e.allow_ports port mode

  -- The client of `public_vkey`, whose id is put into the list of running tasks.
  unfoldable pub add_public : Server → Server
  add_public s =
      if e.public_vkey == []
      then s
      else with_public (new_client codec [] (make_client e.public_vkey true true) s.db) s

  unfoldable pub init_from_csv : Adds → Server → Option Server
  unfolding add_public
  init_from_csv add s = add_each add (values (add_public s).db.tasks) (some (add_public s))

  -- NewMode: the service, and what "webServer" starts on the way.
  unfoldable pub new_mode : Adds → Text → Server → Option (Server × Option Service)
  unfolding init_from_csv
  new_mode add mode s =
      if mode == web_server_mode
      then elim (init_from_csv add s) [
        | none ↦ none
        | some s₁ ↦ elim (add (pos 0) (pos 0) http_host_server s₁) [
          | none ↦ none
          | some (s₂, ok) ↦ some (s₂, some web_server)
        ]
      ]
      else some (s, plain_service mode)

  abbrev pub stored : ℤ → Option (Server × Option Service) → Outcome
  stored id none = none
  stored id (some (s, none)) = some (s, false)
  stored id (some (s, some svr)) =
      some (record s { run_list = store id (some svr) s.run_list }, true)

  -- AddTask. Its service starts on its own, and leaves the list again when it fails (`start_error`).
  unfoldable pub add_task : ℕ → Adds
  unfolding new_mode
  add_task zero id port mode s = none
  add_task (suc fuel) id port mode s =
      if is_secret_mode mode
      then some (record s { run_list = store id none s.run_list }, true)
      else if not (port_opens port mode) && not (mode == http_host_server)
      then some (s, false)
      else stored id (new_mode (add_task fuel) mode s)

  unfoldable pub start_error : ℤ → Server → Server
  start_error id s = record s { run_list = delete id s.run_list }

  -- Whether the entry of the run list is stopped: a nil entry only gives a warning.
  abbrev pub is_closed : ℤ → Option Service → Bool
  is_closed id none = true
  is_closed id (some svr) = e.closes id

  unfoldable pub stop_server : ℤ → Server → Server × Bool
  stop_server id s = elim (load id s.run_list) [
    | none ↦ (s, false)
    | some v ↦
        if is_closed id v
        then elim (get_task id s.db) [
          | none ↦ (s, false)
          | some t ↦ (
            record s {
              db = update_task codec (record t { status = false }) s.db;
              run_list = delete id s.run_list;
            },
            true,
          )
        ]
        else (s, false)
  ]

  abbrev pub marked_running : Tunnel → Outcome → Outcome
  marked_running t none = none
  marked_running t (some (s, ok)) =
      some (record s { db = update_task codec (record t { status = true }) s.db }, true)

  -- The error of AddTask is dropped.
  unfoldable pub start_task : ℕ → ℤ → Server → Outcome
  unfolding add_task
  start_task fuel id s = elim (get_task id s.db) [
    | none ↦ some (s, false)
    | some t ↦ marked_running t (add_task fuel t.id t.port t.mode s)
  ]

  abbrev pub deleted : ℤ → Server × Bool → Server × Bool
  deleted id (s, false) = (s, false)
  deleted id (s, true) = (record s { db = Tasks.del_task codec id s.db }, true)

  unfoldable pub del_task : ℤ → Server → Server × Bool
  unfolding stop_server
  del_task id s = elim (load id s.run_list) [
    | none ↦ deleted id (s, true)
    | some v ↦ deleted id (stop_server id s)
  ]

  abbrev pub del_tasks : List ℤ → Server → Server
  del_tasks [] s = s
  del_tasks (id ∷ ids) s = del_tasks ids (del_task id s).0

  abbrev pub del_hosts : List ℤ → JsonDb → JsonDb
  del_hosts [] db = db
  del_hosts (id ∷ ids) db = del_hosts ids (del_host codec id db)

  -- `no_store` and `client` of an entry, as the two loops test them
  abbrev pub is_closed_with : ℤ → Bool → Bool → ℤ → Bool
  is_closed_with client_id just_del_no_store no_store id =
      not (just_del_no_store && not no_store) && id == client_id

  unfoldable pub del_tunnel_and_host_by_client_id : ℤ → Bool → Server → Server
  unfolding del_task
  del_tunnel_and_host_by_client_id client_id just s =
      let tasks =
        select (λ v. is_closed_with client_id just v.no_store v.client.id) (values s.db.tasks) in
      let s' = del_tasks (map (λ v. v.id) tasks) s in
      let hosts =
        select (λ v. is_closed_with client_id just v.no_store v.client.id) (values s'.db.hosts) in
      record s' { db = del_hosts (map (λ v. v.id) hosts) s'.db }

-- What the bridge sends. A task of `OpenTask` is taken by one of two cases of the `select`, whichever
-- Go happens to choose.
pub data Message : Type 0 where
  open_task : Tunnel → Message
  open_task_again : Tunnel → Message
  close_task : Tunnel → Message
  close_client : ℤ → Message

module _ (codec : Codec) (e : Env) where
  abbrev pub without_client : ℤ → Server → Server
  without_client id s = elim (load id s.db.clients) [
    | none ↦ s
    | some c ↦ if c.no_store then record s { db = del_client codec id s.db } else s
  ]

  -- One message of DealBridgeTask; `none` is that the fuel ended.
  unfoldable pub deal_bridge_task : ℕ → Message → Server → Option Server
  unfolding add_task start_task stop_server del_tunnel_and_host_by_client_id
  deal_bridge_task fuel (open_task t) s = state_of (add_task codec e fuel t.id t.port t.mode s)
  deal_bridge_task fuel (open_task_again t) s = state_of (start_task codec e fuel t.id s)
  deal_bridge_task fuel (close_task t) s = some (stop_server codec e t.id s).0
  deal_bridge_task fuel (close_client id) s =
      some (without_client id (del_tunnel_and_host_by_client_id codec e id true s))

-- The task that a visitor with the key gets; `none` is that the connection is closed.
unfoldable pub deal_secret : (Text → Text) → Text → JsonDb → Option Tunnel
deal_secret md5 password db = elim (get_task_by_md5_password md5 password db) [
  | none ↦ none
  | some t ↦ if t.status then some t else none
]
