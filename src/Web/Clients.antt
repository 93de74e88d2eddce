-- ===== src/Web/Clients.antt =====
-- web/controllers/client.go: the actions on clients, and global.go: the global black list. A client is
-- one object that its tunnels and hosts point to, so an edit shows through them. `random` are the random
-- keys, `now` the date.
use nps_socks.Web.Request.{
  Request, get_escape_string, get_int_no_err, get_bool_no_err, remove_repeated_element, lines,
}
use nps_socks.Web.Tunnels.{Answer, page, ok, err, ok_with_id, crashed}
use nps_socks.Common.Arrays.{get_bool_by_str}
use nps_socks.Bridge.{Bridge, Event, Acts}
use nps_socks.Bridge
use nps_socks.File.JsonDb.{JsonDb, Codec, get_client, get_client_id, store_clients_to_json_file}
use nps_socks.File.Obj.{Client, Flow, Glob, Tunnel, Host}
use nps_socks.File.Clients.{
  new_client, added, refused, no_more_keys, Added, verify_vkey, verify_user_name, del_client,
}
use nps_socks.Rate.{Rate, new_rate, start}
use nps_socks.Server.{Server, Env, del_tunnel_and_host_by_client_id}
use nps_socks.SyncMap.{each_value, store}
use nps_socks.Prelude.{
  Text, Bool, Option, ℤ, List, codes, text_eq, int_eq, ◌==◌, ◌&&◌, ◌||◌, not, pos, ltb_ℤ, wrap64,
  scale, none, some, true, false, if◌then◌else◌, [], ◌++◌,
}

-- The tables of the server, the bridge, and what the bridge sends and closes.
pub record Site : Type 0 where
  pub server : Server
  pub bridge : Bridge
  pub events : List Event

-- `none` is that the random keys ended.
abbrev pub Reply : Type 0
Reply = Option (Site × Answer)

abbrev pub with_db : JsonDb → Site → Site
with_db db s = record s { server = record s.server { db = db } }

-- A write to the object of a client, as its tunnels and hosts see it.
abbrev share_task : Client → Tunnel → Tunnel
share_task c t = if t.client.id == c.id then record t { client = c } else t

abbrev share_host : Client → Host → Host
share_host c h = if h.client.id == c.id then record h { client = c } else h

abbrev pub put_client : ℤ → Client → JsonDb → JsonDb
put_client id c db = record db {
  clients = store id c db.clients;
  tasks = each_value (share_task c) db.tasks;
  hosts = each_value (share_host c) db.hosts;
}

abbrev pub black_list_of : Request → Text → List Text
black_list_of r key = remove_repeated_element (lines (get_escape_string r key))

-- The bucket after an edit, started; that of before is stopped.
abbrev pub bucket_for : ℤ → Rate
bucket_for rate_limit =
    start
      (new_rate (if ltb_ℤ (pos 0) rate_limit then wrap64 (scale 1024 rate_limit) else pos 16777216))

-- What only an administrator may set.
abbrev pub admin_fields : Request → Flow → Client → Client
admin_fields r f c = record c {
  verify_key = get_escape_string r (codes "vkey");
  flow = some (record f { flow_limit = get_int_no_err r (codes "flow_limit") });
  rate_limit = get_int_no_err r (codes "rate_limit");
  max_conn = get_int_no_err r (codes "max_conn");
  max_tunnel_num = get_int_no_err r (codes "max_tunnel");
}

-- What everyone may set; `renames` is whether the name for the web interface is among it.
abbrev pub user_fields : Request → Bool → Client → Client
user_fields r renames c = record c {
  remark = get_escape_string r (codes "remark");
  cnf = record {
    u = get_escape_string r (codes "u");
    p = get_escape_string r (codes "p");
    compress = get_bool_by_str (get_escape_string r (codes "compress"));
    crypt = get_bool_no_err r (codes "crypt");
  };
  web_user_name = if renames then get_escape_string r (codes "web_username") else c.web_user_name;
  web_password = get_escape_string r (codes "web_password");
  config_conn_allow = get_bool_no_err r (codes "config_conn_allow");
  rate = some (bucket_for c.rate_limit);
  black_ip_list = black_list_of r (codes "blackiplist");
}

-- The client of the form.
abbrev pub client_of : Request → ℤ → Text → Client
client_of r id now = record {
  cnf = record {
    u = get_escape_string r (codes "u");
    p = get_escape_string r (codes "p");
    compress = get_bool_by_str (get_escape_string r (codes "compress"));
    crypt = get_bool_no_err r (codes "crypt");
  };
  id = id;
  verify_key = get_escape_string r (codes "vkey");
  addr = [];
  remark = get_escape_string r (codes "remark");
  status = true;
  is_connect = false;
  rate_limit = get_int_no_err r (codes "rate_limit");
  flow = some (record {
    export_flow = pos 0;
    inlet_flow = pos 0;
    flow_limit = get_int_no_err r (codes "flow_limit");
  });
  rate = none;
  no_store = false;
  no_display = false;
  max_conn = get_int_no_err r (codes "max_conn");
  now_conn = pos 0;
  web_user_name = get_escape_string r (codes "web_username");
  web_password = get_escape_string r (codes "web_password");
  config_conn_allow = get_bool_no_err r (codes "config_conn_allow");
  max_tunnel_num = get_int_no_err r (codes "max_tunnel");
  version = [];
  black_ip_list = black_list_of r (codes "blackiplist");
  create_time = now;
  last_online_time = [];
}

module _ (codec : Codec) where
  abbrev pub added_reply : ℤ → Site → Added → Reply
  added_reply id s (added db c) = some (with_db db s, ok_with_id id)
  added_reply id s (refused why) = some (s, err)
  added_reply id s no_more_keys = none

  unfoldable pub add : List Text → Text → Request → Site → Reply
  unfolding get_client_id new_client
  add random now r s =
      if r.is_get
      then some (s, page)
      else (let (db, id) = get_client_id s.server.db in
          added_reply id (with_db db s) (new_client codec random (client_of r id now) db))

  -- `GetClient` and `Edit` for the id of the form. `admin_name` is `web_username` of the configuration and
  -- `may_rename` its `allow_user_change_username`.
  module _ (admin_name : Text) (may_rename : Bool) where
    abbrev pub saved : Request → ℤ → Bool → Client → JsonDb → JsonDb × Answer
    saved r id is_admin c db = (
      store_clients_to_json_file codec
          (put_client id (user_fields r (is_admin || may_rename) c) db),
      ok,
    )

    -- The key is set before a client without a flow makes the request crash.
    abbrev pub limited : Request → ℤ → Client → JsonDb → Option Flow → JsonDb × Answer
    limited r id c db none =
        (put_client id (record c { verify_key = get_escape_string r (codes "vkey") }) db, crashed)
    limited r id c db (some f) = saved r id true (admin_fields r f c) db

    abbrev pub edit_as : Option Bool → Request → ℤ → Client → JsonDb → JsonDb × Answer
    edit_as none r id c db = (db, crashed)
    edit_as (some true) r id c db =
        if not (verify_vkey (get_escape_string r (codes "vkey")) c.id db)
        then (db, err)
        else limited r id c db c.flow
    edit_as (some false) r id c db = saved r id false c db

    abbrev pub name_is_taken : Text → Client → JsonDb → Bool
    name_is_taken username c db =
        not (username == []) && (username == admin_name || not (verify_user_name username c.id db))

    abbrev pub edit_found : Option Bool → Request → ℤ → JsonDb → Option Client → JsonDb × Answer
    edit_found is_admin r id db none = (db, err)
    edit_found is_admin r id db (some c) =
        if name_is_taken (get_escape_string r (codes "web_username")) c db
        then (db, err)
        else edit_as is_admin r id c db

    unfoldable pub edit : Option Bool → Request → JsonDb → JsonDb × Answer
    unfolding get_client verify_user_name verify_vkey store_clients_to_json_file
    edit is_admin r db =
        let id = get_int_no_err r (codes "id") in
        if r.is_get then (db, page) else edit_found is_admin r id db (get_client id db)

  -- `DelClientConnect`
  abbrev pub del_client_connect : ℤ → Site → Site
  del_client_connect id s =
      let (b, sent) = Bridge.del_client s.server.db id s.bridge in
      record s { bridge = b; events = s.events ++ sent }

  unfoldable pub change_status : Request → Site → Site × Answer
  unfolding get_client
  change_status r s =
      let id = get_int_no_err r (codes "id") in
      let status = get_bool_no_err r (codes "status") in
      elim (get_client id s.server.db) [
        | none ↦ (s, err)
        | some c ↦
            let s' = with_db (put_client id (record c { status = status }) s.server.db) s in
            (if status then s' else del_client_connect c.id s', ok)
      ]

  unfoldable pub del : Env → Request → Site → Site × Answer
  unfolding del_client del_tunnel_and_host_by_client_id
  del e r s =
      let id = get_int_no_err r (codes "id") in
      let s₁ = with_db (del_client codec id s.server.db) s in
      let s₂ = record s₁ { server = del_tunnel_and_host_by_client_id codec e id false s₁.server } in
      (del_client_connect id s₂, ok)

  -- `StoreGlobalToJsonFile` for settings that are there: an error of json.Marshal is dropped.
  abbrev pub global_bytes : Option Text → Text
  global_bytes none = []
  global_bytes (some b) = b

  -- `SaveGlobal`
  unfoldable pub save_global : Glob → JsonDb → JsonDb
  save_global t db = record db {
    global = some t;
    global_file = some (global_bytes (codec.globals.marshal t));
  }

  -- global.go, `Save`
  unfoldable pub save : Request → JsonDb → JsonDb × Answer
  unfolding save_global
  save r db = if r.is_get then (db, page) else (
    save_global (record { black_ip_list = black_list_of r (codes "globalBlackIpList") }) db,
    ok,
  )
