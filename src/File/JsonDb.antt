-- ===== src/File/JsonDb.antt =====
-- lib/file/file.go: the tables of the database and their files. A file is the bytes last written to
-- it; `encoding/json` is a parameter, and an I/O error is a panic, which is not modelled.
pub mod Storage
use nps_socks.File.Obj.{Client, Tunnel, Host, Glob}
use nps_socks.Prelude.{
  ℕ, Bool, true, false, Option, none, some, List, [], ◌∷◌, ◌++◌, ℤ, pos, ◌+ℤ◌, wrap32, wrap64,
  scale, ltb_ℤ, Text, codes, split_text, if◌then◌else◌,
}
use nps_socks.Rate.{new_rate, start}
use nps_socks.SyncMap.{Table, load, store, values}

-- json.Marshal and json.Unmarshal at one type; `none` is an error.
pub record Json (V : Type 0) : Type 0 where
  pub marshal : V → Option Text
  pub unmarshal : Text → Option V

pub record Codec : Type 0 where
  pub tunnels : Json Tunnel
  pub hosts : Json Host
  pub clients : Json Client
  pub globals : Json Glob

pub record JsonDb : Type 0 where
  pub tasks : Table Tunnel
  pub hosts : Table Host
  pub clients : Table Client
  pub global : Option Glob
  pub client_increase_id : ℤ
  pub task_increase_id : ℤ
  pub host_increase_id : ℤ
  pub task_file : Text
  pub host_file : Text
  pub client_file : Text
  pub global_file : Option Text

-- `"\n" + common.CONN_DATA_SEQ`
abbrev pub separator : Text
separator = b'\n' ∷ codes "*#*"

abbrev append_record : Option Text → Text → Text
append_record none rest = rest
append_record (some b) rest = b ++ (separator ++ rest)

-- What `storeSyncMapToFile` writes for the values in the order of `Range`.
unfoldable pub store_sync_map : {V : Type 0} → (V → Bool) → Json V → List V → Text
store_sync_map no_store json [] = []
store_sync_map no_store json (obj ∷ m) =
    let rest = store_sync_map no_store json m in
    if no_store obj then rest else append_record (json.marshal obj) rest

-- `f` is called on each piece of the file, in order.
abbrev pub each : {S : Type 0} → (Text → S → S) → List Text → S → S
each f [] s = s
each f (v ∷ vs) s = each f vs (f v s)

unfoldable pub load_sync_map : {S : Type 0} → (Text → S → S) → Text → S → S
load_sync_map f file s = each f (split_text file separator) s

unfoldable pub get_client : ℤ → JsonDb → Option Client
get_client id s = load id s.clients

-- `if post.Id > int(s.…IncreaseId) { s.…IncreaseId = int32(post.Id) }`
abbrev pub raised : ℤ → ℤ → ℤ
raised id increase_id = if ltb_ℤ increase_id id then wrap32 id else increase_id

-- The bucket of a client that is loaded or added.
abbrev pub rate_for : ℤ → ℤ
rate_for rate_limit =
    if ltb_ℤ (pos 0) rate_limit then wrap64 (scale 1024 rate_limit) else pos 16777216

abbrev with_client : Option Client → Tunnel → JsonDb → JsonDb
with_client none post s = s
with_client (some c) post s = record s {
  tasks = store post.id (record post { client = c }) s.tasks;
  task_increase_id = raised post.id s.task_increase_id;
}

abbrev host_with_client : Option Client → Host → JsonDb → JsonDb
host_with_client none post s = s
host_with_client (some c) post s = record s {
  hosts = store post.id (record post { client = c }) s.hosts;
  host_increase_id = raised post.id s.host_increase_id;
}

module _ (codec : Codec) where
  unfoldable pub load_task : Text → JsonDb → JsonDb
  unfolding get_client
  load_task v s = elim (codec.tunnels.unmarshal v) [
    | none ↦ s
    | some post ↦ with_client (get_client post.client.id s) post s
  ]

  unfoldable pub load_host : Text → JsonDb → JsonDb
  unfolding get_client
  load_host v s = elim (codec.hosts.unmarshal v) [
    | none ↦ s
    | some post ↦ host_with_client (get_client post.client.id s) post s
  ]

  unfoldable pub load_client : Text → JsonDb → JsonDb
  load_client v s = elim (codec.clients.unmarshal v) [
    | none ↦ s
    | some post ↦
        let bucket = start (new_rate (rate_for post.rate_limit)) in
        record s {
          clients = store post.id (record post { rate = some bucket; now_conn = pos 0 }) s.clients;
          client_increase_id = raised post.id s.client_increase_id;
        }
  ]

  unfoldable pub load_task_from_json_file : JsonDb → JsonDb
  unfolding load_task load_sync_map
  load_task_from_json_file s = load_sync_map load_task s.task_file s

  unfoldable pub load_client_from_json_file : JsonDb → JsonDb
  unfolding load_client load_sync_map
  load_client_from_json_file s = load_sync_map load_client s.client_file s

  unfoldable pub load_host_from_json_file : JsonDb → JsonDb
  unfolding load_host load_sync_map
  load_host_from_json_file s = load_sync_map load_host s.host_file s

  unfoldable pub load_global_from_json_file : JsonDb → JsonDb
  load_global_from_json_file s = elim s.global_file [
    | none ↦ s
    | some b ↦ elim (codec.globals.unmarshal b) [
      | none ↦ s
      | some post ↦ record s { global = some post }
    ]
  ]

  unfoldable pub store_hosts_to_json_file : JsonDb → JsonDb
  unfolding store_sync_map
  store_hosts_to_json_file s = record s {
    host_file = store_sync_map (λ h. h.no_store) codec.hosts (values s.hosts);
  }

  unfoldable pub store_tasks_to_json_file : JsonDb → JsonDb
  unfolding store_sync_map
  store_tasks_to_json_file s = record s {
    task_file = store_sync_map (λ t. t.no_store) codec.tunnels (values s.tasks);
  }

  unfoldable pub store_clients_to_json_file : JsonDb → JsonDb
  unfolding store_sync_map
  store_clients_to_json_file s = record s {
    client_file = store_sync_map (λ c. c.no_store) codec.clients (values s.clients);
  }

-- `atomic.AddInt32(&s.…IncreaseId, 1)`: the new value is the result.
unfoldable pub get_client_id : JsonDb → JsonDb × ℤ
get_client_id s =
    let id = wrap32 (s.client_increase_id +ℤ pos 1) in (record s { client_increase_id = id }, id)

unfoldable pub get_task_id : JsonDb → JsonDb × ℤ
get_task_id s =
    let id = wrap32 (s.task_increase_id +ℤ pos 1) in (record s { task_increase_id = id }, id)

unfoldable pub get_host_id : JsonDb → JsonDb × ℤ
get_host_id s =
    let id = wrap32 (s.host_increase_id +ℤ pos 1) in (record s { host_increase_id = id }, id)
