-- ===== src/Bridge/NewTask.antt =====
-- bridge/bridge.go, `getConfig`: the message that brings a task, for one port or several.
use nps_socks.Bridge.Session.{goes, panics, Session, Outside, add_ok, Turn, add_fail}
use nps_socks.Strconv.{itoa}
use nps_socks.Common.Ports.{get_ports}
use nps_socks.File.Tasks.{has_tunnel, new_task}
use nps_socks.File.Obj.{Client, Tunnel, Target, Health, empty_flow}
use nps_socks.Prelude.{
  ◌++◌, Option, List, ℤ, Text, ◌∷◌, Bool, some, [], true, none, false, ◌==◌, if◌then◌else◌, not,
  ◌&&◌, int_eq, codes, pos, drop, ◌||◌, ltb, text_eq, length, nat_eq,
}
use nps_socks.Net.{Chunks}
use nps_socks.File.JsonDb.{JsonDb, get_task_id}
use nps_socks.Wire.{Info, read_error, filled, get_info}
use nps_socks.Server.{port_opens, is_secret_mode}

-- `GetTaskInfo` of what was read.
abbrev pub task_info : Info Tunnel → ℤ → Option Tunnel
task_info read_error id = none
task_info (filled none) id = none
task_info (filled (some t)) id =
    some (record t { id = id; no_store = true; flow = some empty_flow })

-- `new(file.Target)` with a text
abbrev pub target_to : Text → Target
target_to text = record {
  now_index = pos 0;
  target_str = text;
  target_arr = none;
  local_proxy = false;
}

-- The target of one port: that of the message if it names a single port, else the port of the target
-- at the same index; `none` is the panic of an index out of range.
abbrev pub target_at : Bool → Tunnel → List ℤ → Option Target
target_at true t targets = some t.target
target_at false t [] = none
target_at false t (p ∷ ps) =
    some (target_to (if t.target_addr == [] then itoa p else t.target_addr ++ (b':' ∷ itoa p)))

abbrev pub empty_health : Health
empty_health = record {
  health_check_timeout = pos 0;
  health_max_fail = pos 0;
  health_check_interval = pos 0;
  health_next_time = pos 0;
  health_map = [];
  http_health_url = [];
  health_remove_arr = none;
  health_check_type = [];
  health_check_target = [];
}

-- The task for one port of the message `t`.
abbrev pub task_for : Bool → Tunnel → Client → ℤ → ℤ → Target → Tunnel
task_for single t c id port target = record {
  id = id;
  port = port;
  s5_user = [];
  port_config = none;
  create_time = [];
  server_ip = t.server_ip;
  mode = t.mode;
  status = true;
  run_status = false;
  client = c;
  ports = [];
  flow = some empty_flow;
  password = t.password;
  remark = if single then t.remark else t.remark ++ (b'_' ∷ itoa port);
  target_addr = [];
  no_store = true;
  is_http = false;
  local_path = t.local_path;
  strip_pre = t.strip_pre;
  target = target;
  multi_account = t.multi_account;
  health = empty_health;
}

pub data Step : Type 0 where
  opens refuses : Session → Step

abbrev pub opened_step : Outside → Session → Tunnel → Option JsonDb → Step
opened_step o s tl none = refuses s
opened_step o s tl (some db) =
    if not (port_opens o.codec (o.env tl.id) tl.port tl.mode) && not (is_secret_mode tl.mode)
    then refuses (record s { db = db })
    else opens (add_ok (record s { db = db; opened = s.opened ++ (tl ∷ []) }))

-- One task, whose id was taken from the counter.
abbrev pub add_one : Outside → Session → Client → Tunnel → Step
add_one o s c tl =
    if has_tunnel c tl s.db then opens (add_ok s) else opened_step o s tl (new_task o.codec tl s.db)

abbrev pub next_task : Outside → Bool → Tunnel → Client → ℤ → Session → Target → Step
next_task o single t c port s target =
    let (db, id) = get_task_id s.db in
    add_one o (record s { db = db }) c (task_for single t c id port target)

abbrev pub after_port : (Session → Turn) → Chunks → Client → Step → Turn
after_port next cs c (opens s) = next s
after_port next cs c (refuses s) = add_fail cs s c

-- The loop over the ports; `targets` starts at the index of the first of them.
unfoldable pub add_ports :
    Outside → Bool → Tunnel → List ℤ → List ℤ → Chunks → Session → Client → Turn
unfolding get_task_id
add_ports o single t [] targets cs s c = goes cs s c
add_ports o single t (port ∷ ports) targets cs s c = elim (target_at single t targets) [
  | none ↦ panics
  | some target ↦
      after_port (λ s'. add_ports o single t ports (drop 1 targets) cs s' c) cs c
        (next_task o single t c port s target)
]

abbrev pub needs_targets : Text → Bool
needs_targets mode = mode == codes "tcp" || mode == codes "udp"

abbrev pub task_turn : Outside → Chunks → Session → Client → Option Tunnel → Turn
task_turn o cs s c none = panics
task_turn o cs s c (some t) =
    let targets = get_ports t.target.target_str in
    let given = get_ports t.ports in
    let ports = if is_secret_mode t.mode then given ++ (pos 0 ∷ []) else given in
    if ltb 1 (length given) && (needs_targets t.mode && not (length given == length targets))
    then add_fail cs s c
    else if length ports == 0
    then add_fail cs s c
    else add_ports o (length ports == 1) t ports targets cs s c

unfoldable pub new_task_turn : Outside → Chunks → Session → Client → Turn
unfolding get_info get_task_id add_ports
new_task_turn o cs s c =
    let (cs', info) = get_info o.fill_task cs in
    let (db, id) = get_task_id s.db in task_turn o cs' (record s { db = db }) c (task_info info id)
