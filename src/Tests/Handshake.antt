-- ===== src/Tests/Handshake.antt =====
-- server/proxy/socks5.go at concrete inputs.
use nps_socks.Net.Stream.{bytes}
use nps_socks.Socks.Access.{is_served, Login, handle_conn-Login}
use nps_socks.Prelude.{beq_text}
use nps_socks.Socks.Connect.{handle_conn-login}
use nps_socks.Common.Bytes.{put_uint16}
use nps_socks.Socks.{requires_auth, check, handle_conn, tunnel}
use nps_socks.Net.{Chunks}
use nps_socks.File.Obj.{Client, make_client, Tunnel, empty_flow}
use nps_socks.Prelude.{◌∷◌, Text, [], codes, pos, ◌≡◌, false, none, ◌++◌, true, some, arith, refl}

abbrev owner : Client
owner = record (make_client (codes "k") false false) {
  cnf = record { u = codes "u"; p = codes "p"; compress = false; crypt = false };
}

abbrev pub task_of : Client → Tunnel
task_of c = record {
  id = pos 1;
  port = pos 1080;
  s5_user = [];
  port_config = none;
  create_time = [];
  server_ip = [];
  mode = codes "socks5";
  status = true;
  run_status = true;
  client = c;
  ports = [];
  flow = some empty_flow;
  password = [];
  remark = [];
  target_addr = [];
  no_store = false;
  is_http = false;
  local_path = [];
  strip_pre = [];
  target = record { now_index = pos 0; target_str = []; target_arr = none; local_proxy = false };
  multi_account = none;
  health = record {
    health_check_timeout = pos 0;
    health_max_fail = pos 0;
    health_check_interval = pos 0;
    health_next_time = pos 0;
    health_map = [];
    http_health_url = [];
    health_remove_arr = none;
    health_check_type = [];
    health_check_target = [];
  };
}

abbrev local_ip : Text
local_ip = 127 ∷ 0 ∷ 0 ∷ 1 ∷ []

abbrev login_chunks : Chunks
login_chunks =
    (5 ∷ 1 ∷ 2 ∷ [])
    ∷ (1 ∷ 1 ∷ (codes "u" ++ (1 ∷ codes "p")))
    ∷ (5 ∷ 1 ∷ 0 ∷ 3 ∷ 3 ∷ (codes "a.b" ++ put_uint16 80))
    ∷ []

handle_conn-login_example :
    handle_conn local_ip 1080 (λ ip. ip) (task_of owner) login_chunks
    ≡ (5 ∷ 2 ∷ 1 ∷ 0 ∷ [], tunnel (codes "a.b") 80)
unfolding requires_auth check beq_text
handle_conn-login_example =
    handle_conn-login local_ip 1080 (λ ip. ip) (task_of owner) (2 ∷ []) (codes "u") (codes "p")
      (codes "a.b") 80 [] refl refl (omega arith) (omega arith) (omega arith)

handle_conn-Login_example : Login (task_of owner) (bytes login_chunks)
unfolding requires_auth is_served handle_conn beq_text
handle_conn-Login_example =
    handle_conn-Login local_ip 1080 (λ ip. ip) (task_of owner) login_chunks refl refl
