-- ===== src/Bridge/GetConfig.antt =====
-- bridge/bridge.go, `getConfig`: the session in which a client sends its configuration, from the flag of
-- a message to the tasks that are opened. A nil pointer that is read, and an index out of range, panic:
-- the goroutine has no recover, and the whole server ends.
pub mod Ends
pub mod Panics
pub mod Sound
pub mod Takeover
use nps_socks.Bridge.NewTask.{new_task_turn}
use nps_socks.Bridge.Session.{goes, stops, fails, panics, Session, Outside, Turn, add_fail, add_ok}
use nps_socks.Strconv.{itoa}
use nps_socks.Common.Ports.{get_ports}
use nps_socks.File.Tasks.{has_tunnel, new_task}
use nps_socks.File.Hosts.{located, has_host, is_host_exist, new_host}
use nps_socks.File.Obj.{Client, Host, Tunnel, Target, Health, empty_flow}
use nps_socks.SyncMap.{Table, store, values, load}
use nps_socks.Prelude.{
  ◌++◌, Option, List, ℤ, Text, ◌∷◌, Bool, some, [], true, map, none, false, select, ◌==◌,
  if◌then◌else◌, not, ◌&&◌, int_eq, codes, ℕ, pos, drop, ◌||◌, suc, ltb, text_eq, length, nat_eq,
  zero,
}
use nps_socks.Net.{Chunks}
use nps_socks.File.JsonDb.{Codec, JsonDb, get_host_id, get_task_id}
use nps_socks.Wire.{
  Info, read_error, filled, get_short_content, get_info, conn_data_seq, get_len_bytes, read_flag,
}
use nps_socks.File.Clients.{
  refused, no_more_keys, Added, new_client, get_client_id_by_vkey, added, flow_or_new,
}
use nps_socks.Bridge.{Bridge, Event, BridgeClient, make_bridge_client, del_client}
use nps_socks.Server.{Env, Server, Service, port_opens, is_secret_mode}

abbrev pub is_absent : {A : Type 0} → Option A → Bool
is_absent none = true
is_absent (some a) = false

abbrev pub remarks : List Text → Text
remarks [] = []
remarks (r ∷ rs) = r ++ (conn_data_seq ++ remarks rs)

-- The remarks of the client's hosts, and of those of its tasks that are in the bridge's run list.
abbrev pub status_text : ℤ → Session → Text
status_text id s =
    remarks (map (λ (h : Host). h.remark) (select (λ h. h.client.id == id) (values s.db.hosts)))
    ++ remarks (
        map (λ (t : Tunnel). t.remark)
          (select (λ t. not (is_absent (load t.id s.run_list)) && t.client.id == id)
            (values s.db.tasks)))

unfoldable pub work_status : Outside → Chunks → Session → Client → Turn
unfolding get_short_content
work_status o cs s c =
    let (cs', b) = get_short_content 32 cs in
    elim b [
      | none ↦ stops cs' s c
      | some vkey ↦ elim (get_client_id_by_vkey o.md5 vkey s.db) [
        | none ↦ stops cs' s c
        | some id ↦ goes cs' (record s { out = s.out ++ get_len_bytes (status_text id s) }) c
      ]
    ]

-- `GetConfigInfo` of what was read: `none` is the panic on a nil pointer.
abbrev pub config_info : Info Client → Option Client
config_info read_error = none
config_info (filled none) = none
config_info (filled (some c)) = some (record c {
  no_store = true;
  status = true;
  flow = some (flow_or_new c.flow);
  no_display = false;
})

abbrev pub draw : List (List Text) → List Text × List (List Text)
draw [] = ([], [])
draw (d ∷ ds) = (d, ds)

-- The rest of the case once NewClient has answered for the client that was sent.
abbrev pub conf_turn : Chunks → Session → Client → Added → Turn
conf_turn cs s sent (added db c) =
    goes cs
      (record s {
        db = db;
        bridge = record s.bridge {
          client = store c.id (make_bridge_client none none none []) s.bridge.client;
        };
        out = s.out ++ (1 ∷ c.verify_key);
      })
      c
conf_turn cs s sent (refused r) = add_fail cs s sent
conf_turn cs s sent no_more_keys = add_fail cs s sent

abbrev pub conf_of : Outside → Chunks → Session → Option Client → Turn
conf_of o cs s none = panics
conf_of o cs s (some c) =
    conf_turn cs (record s { random = (draw s.random).1 }) c
      (new_client o.codec (draw s.random).0 c s.db)

unfoldable pub new_conf : Outside → Chunks → Session → Turn
unfolding get_info
new_conf o cs s = let (cs', info) = get_info o.fill_client cs in conf_of o cs' s (config_info info)

-- `GetHostInfo` of what was read; the id is taken from the counter.
abbrev pub host_info : Info Host → ℤ → Option Host
host_info read_error id = none
host_info (filled none) id = none
host_info (filled (some h)) id =
    some (record h { id = id; flow = some empty_flow; no_store = true })

abbrev pub stored_or : JsonDb → Option JsonDb → JsonDb
stored_or db none = db
stored_or db (some db') = db'

abbrev pub host_turn : Outside → Chunks → Session → Client → Option Host → Turn
host_turn o cs s c none = panics
host_turn o cs s c (some h) =
    let h' = located (record h { client = c }) in
    if has_host c h' s.db
    then goes cs (add_ok s) c
    else if is_host_exist h' s.db
    then add_fail cs s c
    else goes cs (add_ok (record s { db = stored_or s.db (new_host o.codec h' s.db) })) c

unfoldable pub new_host_turn : Outside → Chunks → Session → Client → Turn
unfolding get_info get_host_id
new_host_turn o cs s c =
    let (cs', info) = get_info o.fill_host cs in
    let (db, id) = get_host_id s.db in host_turn o cs' (record s { db = db }) c (host_info info id)

-- The switch on the flag of a message; an unknown one is passed over.
unfoldable pub config_turn : Outside → Text → Chunks → Session → Client → Turn
unfolding work_status new_conf new_host_turn new_task_turn
config_turn o flag cs s c =
    if flag == codes "stus"
    then work_status o cs s c
    else if flag == codes "conf"
    then new_conf o cs s
    else if flag == codes "host"
    then new_host_turn o cs s c
    else if flag == codes "task"
    then new_task_turn o cs s c
    else goes cs s c

-- How the session ends: with the connection closed and what DelClient did, or with a panic.
pub data Ending : Type 0 where
  closed : Session → List Event → Ending
  crashed out_of_fuel : Ending

abbrev pub end_failed : Session → Client → Ending
end_failed s c =
    let (b, events) = del_client s.db c.id s.bridge in closed (record s { bridge = b }) events

abbrev pub after_turn : (Chunks → Session → Client → Ending) → Turn → Ending
after_turn next (goes cs s c) = next cs s c
after_turn next (stops cs s c) = closed s []
after_turn next (fails cs s c) = end_failed s c
after_turn next panics = crashed

unfoldable pub get_config : Outside → ℕ → Chunks → Session → Client → Ending
unfolding config_turn
get_config o zero cs s c = out_of_fuel
get_config o (suc fuel) cs s c =
    let (cs', f) = read_flag cs in
    elim f [
      | none ↦ closed s []
      | some flag ↦
          after_turn (λ cs₁ s₁ c₁. get_config o fuel cs₁ s₁ c₁) (config_turn o flag cs' s c)
    ]
