-- ===== src/Web/Tunnels.antt =====
-- web/controllers/index.go: the actions on tunnels. An action that stops the request with an error keeps
-- what it has written to an object that the table holds. `draws` are the random ports, `now` the date.
use nps_socks.Web.Request.{
  Request, get_escape_string, get_int_no_err, get_bool_no_err, auth_str_to_map,
}
use nps_socks.File.JsonDb.{JsonDb, Codec, get_client, get_task_id}
use nps_socks.File.Obj.{Tunnel, Target, Client, PortConfig, empty_flow}
use nps_socks.File.Tasks.{get_task, new_task, update_task, get_tunnel_num}
use nps_socks.Server.{Server, Env, Outcome, add_task, start_task, stop_server, del_task}
use nps_socks.ServerPort.{test_server_port, generate_server_port}
use nps_socks.SyncMap.{store}
use nps_socks.Prelude.{
  Text, Bool, Option, ℤ, ℕ, List, codes, int_eq, ◌==◌, ◌&&◌, not, pos, leb_ℤ, none, some, true,
  false, if◌then◌else◌, [],
}

-- `crashed` is a panic, which beego answers with an error page.
pub data Answer : Type 0 where
  page ok err crashed : Answer
  ok_with_id : ℤ → Answer

-- `none` is that the fuel or the draws ended.
abbrev pub Reply : Type 0
Reply = Option (Server × Answer)

abbrev pub target_of : Request → Target
target_of r = record {
  now_index = pos 0;
  target_str = get_escape_string r (codes "target");
  target_arr = none;
  local_proxy = get_bool_no_err r (codes "local_proxy");
}

abbrev pub port_config_of : Request → PortConfig
port_config_of r = record {
  flow_limit = get_int_no_err r (codes "flow_limit");
  rate_limit = get_int_no_err r (codes "rate_limit");
  max_conn = get_int_no_err r (codes "max_conn");
  now_conn = pos 0;
  expire_time = get_escape_string r (codes "expire_time");
}

-- `t.MaxTunnelNum != 0 && t.GetTunnelNum() >= t.MaxTunnelNum`
abbrev pub has_enough : Client → JsonDb → Bool
has_enough c db =
    not (c.max_tunnel_num == pos 0) && leb_ℤ c.max_tunnel_num (pos (get_tunnel_num c db))

-- A write to a tunnel that the table holds.
abbrev pub put_task : ℤ → Tunnel → Server → Server
put_task id t s = record s { db = record s.db { tasks = store id t s.db.tasks } }

-- The fields of the form that `Edit` sets before the accounts.
abbrev pub edited : Request → ℤ → Tunnel → Tunnel
edited r id t = record t {
  id = id;
  server_ip = get_escape_string r (codes "server_ip");
  mode = get_escape_string r (codes "type");
  target = target_of r;
  password = get_escape_string r (codes "password");
  local_path = get_escape_string r (codes "local_path");
  strip_pre = get_escape_string r (codes "strip_pre");
  remark = get_escape_string r (codes "remark");
  s5_user = get_escape_string r (codes "S5User");
  port_config = some (port_config_of r);
}

abbrev pub answer_of : Server × Bool → Reply
answer_of (s, true) = some (s, ok)
answer_of (s, false) = some (s, err)

abbrev pub answered : Outcome → Reply
answered none = none
answered (some r) = answer_of r

module _ (codec : Codec) (e : Env) (fuel : ℕ) (draws : List ℤ) (now : Text) where
  abbrev pub port_opens : ℤ → Text → Bool
  port_opens port mode = test_server_port e.udp_free e.tcp_free e.allow_ports port mode

  -- The port of the form, or a generated one; `none` is that the draws ended.
  abbrev pub port_for : ℤ → Text → Option ℤ
  port_for port mode =
      if leb_ℤ port (pos 0)
      then generate_server_port e.udp_free e.tcp_free e.allow_ports draws mode
      else some port

  -- The tunnel of the form; its client is set afterwards.
  abbrev pub tunnel_of : Request → ℤ → ℤ → List (Text × Text) → Client → Tunnel
  tunnel_of r id port accounts c = record {
    id = id;
    port = port;
    s5_user = get_escape_string r (codes "S5User");
    port_config = some (port_config_of r);
    create_time = now;
    server_ip = get_escape_string r (codes "server_ip");
    mode = get_escape_string r (codes "type");
    status = true;
    run_status = false;
    client = c;
    ports = [];
    flow = some empty_flow;
    password = get_escape_string r (codes "password");
    remark = get_escape_string r (codes "remark");
    target_addr = [];
    no_store = false;
    is_http = false;
    local_path = get_escape_string r (codes "local_path");
    strip_pre = get_escape_string r (codes "strip_pre");
    target = target_of r;
    multi_account = some (record { account_map = accounts });
    health = record {
      health_check_timeout = pos 0;
      health_max_fail = pos 0;
      health_check_interval = pos 0;
      health_next_time = pos 0;
      health_map = [];
      http_health_url = [];
      health_remove_arr = none;
      health_check_type = [];
      health_check_target = [];
    };
  }

  abbrev pub started : ℤ → Outcome → Reply
  started id none = none
  started id (some (s, false)) = some (s, err)
  started id (some (s, true)) = some (s, ok_with_id id)

  -- From `NewTask` on.
  abbrev pub listed : Tunnel → Server → Option JsonDb → Reply
  listed t s none = some (s, err)
  listed t s (some db) =
      started t.id (add_task codec e fuel t.id t.port t.mode (record s { db = db }))

  -- From `GetClient` on, once the port is found.
  abbrev pub owned_by : Request → ℤ → ℤ → List (Text × Text) → Server → Option Client → Reply
  owned_by r id port accounts s none = some (s, err)
  owned_by r id port accounts s (some c) =
      let t = tunnel_of r id port accounts c in
      let rest = listed t s (new_task codec t s.db) in
      if has_enough c s.db then some (s, err) else rest

  abbrev pub ported : Request → ℤ → List (Text × Text) → Server → Option ℤ → Reply
  ported r id accounts s none = none
  ported r id accounts s (some port) =
      if port_opens port (get_escape_string r (codes "type"))
      then owned_by r id port accounts s (get_client (get_int_no_err r (codes "client_id")) s.db)
      else some (s, err)

  -- With the id that `GetTaskId` gives.
  abbrev pub add_as : Request → ℤ → Server → Option (List (Text × Text)) → Reply
  add_as r id s none = some (s, crashed)
  add_as r id s (some accounts) =
      ported r id accounts s
        (port_for (get_int_no_err r (codes "port")) (get_escape_string r (codes "type")))

  unfoldable pub add : Request → Server → Reply
  unfolding get_task_id auth_str_to_map new_task get_client get_tunnel_num
  add r s =
      if r.is_get
      then some (s, page)
      else (let (db, id) = get_task_id s.db in
          add_as r id (record s { db = db })
            (auth_str_to_map (get_escape_string r (codes "S5User"))))

  abbrev pub restarted : Outcome → Reply
  restarted none = none
  restarted (some (s, b)) = some (s, ok)

  -- `Edit` from the accounts on; the errors of StopServer and StartTask are dropped.
  abbrev pub edit_accounts : Request → ℤ → Tunnel → Server → Option (List (Text × Text)) → Reply
  edit_accounts r id t s none = some (put_task id (edited r id t) s, crashed)
  edit_accounts r id t s (some accounts) =
      let t' = record (edited r id t) {
        multi_account = some (record { account_map = accounts });
      } in
      restarted (
        start_task codec e fuel id
          (stop_server codec e id (record s { db = update_task codec t' s.db })).0)

  abbrev pub edit_fields : Request → ℤ → Tunnel → Server → Reply
  edit_fields r id t s =
      edit_accounts r id t s (auth_str_to_map (get_escape_string r (codes "S5User")))

  -- A changed port: the port of the form is tested, not the one that was generated for it.
  abbrev pub edit_port : Request → ℤ → Tunnel → Server → Option ℤ → Reply
  edit_port r id t s none = none
  edit_port r id t s (some port) =
      if port_opens (get_int_no_err r (codes "port")) t.mode
      then edit_fields r id (record t { port = port }) s
      else some (put_task id (record t { port = port }) s, err)

  abbrev pub edit_owned : Request → ℤ → Tunnel → Server → Option Client → Reply
  edit_owned r id t s none = some (s, err)
  edit_owned r id t s (some c) =
      let port = get_int_no_err r (codes "port") in
      if not (port == t.port)
      then edit_port r id (record t { client = c }) s (port_for port t.mode)
      else edit_fields r id (record t { client = c }) s

  -- For a tunnel that is not there the answer is that it was modified.
  abbrev pub edit_found : Request → ℤ → Server → Option Tunnel → Reply
  edit_found r id s none = some (s, ok)
  edit_found r id s (some t) =
      edit_owned r id t s (get_client (get_int_no_err r (codes "client_id")) s.db)

  unfoldable pub edit : Request → Server → Reply
  unfolding get_task get_client auth_str_to_map update_task
  edit r s =
      let id = get_int_no_err r (codes "id") in
      if r.is_get then some (s, page) else edit_found r id s (get_task id s.db)

  unfoldable pub stop : Request → Server → Reply
  stop r s = answer_of (stop_server codec e (get_int_no_err r (codes "id")) s)

  unfoldable pub del : Request → Server → Reply
  del r s = answer_of (del_task codec e (get_int_no_err r (codes "id")) s)

  unfoldable pub start : Request → Server → Reply
  start r s = answered (start_task codec e fuel (get_int_no_err r (codes "id")) s)
