-- ===== src/Web/Hosts.antt =====
-- web/controllers/index.go: the actions on hosts. An action that stops the request with an error keeps
-- what it has written to an object that the table holds.
use nps_socks.Web.Request.{Request, get_escape_string, get_int_no_err, get_bool_no_err}
use nps_socks.Web.Tunnels.{Answer, page, ok, err, ok_with_id, has_enough, target_of}
use nps_socks.File.JsonDb.{JsonDb, Codec, get_client, get_host_id, store_hosts_to_json_file}
use nps_socks.File.Obj.{Host, Client, empty_flow}
use nps_socks.File.Hosts.{get_host_by_id, new_host, is_host_exist, del_host}
use nps_socks.SyncMap.{store}
use nps_socks.Prelude.{
  ℤ, codes, text_eq, ◌==◌, ◌&&◌, not, none, some, false, if◌then◌else◌, pos, Bool, [],
}

-- The host of the form.
abbrev pub host_of : Request → ℤ → Client → Host
host_of r id c = record {
  id = id;
  host = get_escape_string r (codes "host");
  header_change = get_escape_string r (codes "header");
  host_change = get_escape_string r (codes "hostchange");
  location = get_escape_string r (codes "location");
  remark = get_escape_string r (codes "remark");
  scheme = get_escape_string r (codes "scheme");
  cert_file_path = get_escape_string r (codes "cert_file_path");
  key_file_path = get_escape_string r (codes "key_file_path");
  no_store = false;
  is_close = false;
  auto_https = get_bool_no_err r (codes "AutoHttps");
  flow = some empty_flow;
  client = c;
  target = target_of r;
  health = record {
    health_check_timeout = pos 0;
    health_max_fail = pos 0;
    health_check_interval = pos 0;
    health_next_time = pos 0;
    health_map = [];
    http_health_url = [];
    health_remove_arr = none;
    health_check_type = [];
    health_check_target = [];
  };
}

-- `tmpHost`, which has no id: the fields that IsHostExist reads are those of the form.
abbrev pub tmp_host : Request → Host → Host
tmp_host r h = record h {
  id = pos 0;
  host = get_escape_string r (codes "host");
  location = get_escape_string r (codes "location");
  scheme = get_escape_string r (codes "scheme");
}

abbrev pub edited : Request → Client → Host → Host
edited r c h = record h {
  client = c;
  host = get_escape_string r (codes "host");
  target = target_of r;
  header_change = get_escape_string r (codes "header");
  host_change = get_escape_string r (codes "hostchange");
  remark = get_escape_string r (codes "remark");
  location = get_escape_string r (codes "location");
  scheme = get_escape_string r (codes "scheme");
  key_file_path = get_escape_string r (codes "key_file_path");
  cert_file_path = get_escape_string r (codes "cert_file_path");
  auto_https = get_bool_no_err r (codes "AutoHttps");
}

module _ (codec : Codec) where
  abbrev pub listed : Host → JsonDb → JsonDb × Answer
  listed h db = elim (new_host codec h db) [ none ↦ (db, err) | some db' ↦ (db', ok_with_id h.id) ]

  -- With the id that `GetHostId` gives.
  abbrev pub add_host_as : Request → JsonDb → ℤ → JsonDb × Answer
  add_host_as r db id = elim (get_client (get_int_no_err r (codes "client_id")) db) [
    | none ↦ (db, err)
    | some c ↦ if has_enough c db then (db, err) else listed (host_of r id c) db
  ]

  unfoldable pub add_host : Request → JsonDb → JsonDb × Answer
  unfolding get_host_id get_client new_host
  add_host r db =
      if r.is_get then (db, page) else (let (db', id) = get_host_id db in add_host_as r db' id)

  -- Only another name of the host is looked for among the hosts.
  abbrev pub is_taken : Request → Host → JsonDb → Bool
  is_taken r h db =
      not (h.host == get_escape_string r (codes "host")) && is_host_exist (tmp_host r h) db

  -- For a host that is not there the answer is that it was modified.
  unfoldable pub edit_host : Request → JsonDb → JsonDb × Answer
  unfolding get_host_by_id is_host_exist get_client store_hosts_to_json_file
  edit_host r db =
      let id = get_int_no_err r (codes "id") in
      if r.is_get then (db, page) else elim (get_host_by_id id db) [
        | none ↦ (db, ok)
        | some h ↦
            if is_taken r h db
            then (db, err)
            else elim (get_client (get_int_no_err r (codes "client_id")) db) [
              | none ↦ (db, err)
              | some c ↦ (
                store_hosts_to_json_file codec
                    (record db { hosts = store id (edited r c h) db.hosts }),
                ok,
              )
            ]
      ]

  unfoldable pub del_host_action : Request → JsonDb → JsonDb × Answer
  unfolding del_host
  del_host_action r db = (del_host codec (get_int_no_err r (codes "id")) db, ok)
