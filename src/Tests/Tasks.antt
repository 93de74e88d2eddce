-- ===== src/Tests/Tasks.antt =====
-- The tasks of server/server.go at concrete inputs.
use nps_socks.Server.Listing.{get_tunnel}
use nps_socks.Server.Listing.Counted.{get_tunnel-select}
use nps_socks.Bridge.{Bridge}
use nps_socks.Server.Closing.{Closed, deal_bridge_task-close_client}
use nps_socks.Server.Consistent.{IsConsistent}
use nps_socks.Server.Lifecycle.{next, here, stopped, booted, Steps-IsConsistent}
use nps_socks.Server.Booting.{Boots}
use nps_socks.Server.Starting.Loop.{add_task_diverges}
use nps_socks.Server.Starting.{add_task_returns}
use nps_socks.ServerPort.{test_server_port}
use nps_socks.Server.Stopping.{HasIds}
use nps_socks.SyncMap.{load, store}
use nps_socks.File.Obj.{Tunnel}
use nps_socks.Prelude.{
  true, pos, [], codes, ◌∷◌, ◌≡◌, some, arith, none, beq_text, refl, Bool, inl, false,
}
use nps_socks.Server.{
  Env, Server, stop_server, close_client, tunnel_mode_server, process_tunnel, deal_bridge_task,
  add_task, web_server, http_server,
}
use nps_socks.Tests.Handshake.{task_of}
use nps_socks.Tests.Db.{alice, ids, office, only_key}
use nps_socks.Common.Arrays.{in_int_arr}
use nps_socks.File.Clients.{new_client}
use nps_socks.Server.{new_mode}

-- Every port is free and every service closes.
abbrev pub calm : Env
calm = record {
  udp_free = λ p. true;
  tcp_free = λ p. true;
  allow_ports = [];
  public_vkey = [];
  closes = λ id. true;
}

abbrev pub tunnel_one : Tunnel
tunnel_one = record (task_of alice) { id = pos 1; mode = codes "tcp"; status = true }

-- One tunnel runs.
abbrev pub one_runs : Server
one_runs = record {
  db = record office { tasks = (pos 1, tunnel_one) ∷ [] };
  run_list = (pos 1, some (tunnel_mode_server process_tunnel)) ∷ [];
}

one_runs-HasIds : HasIds one_runs
unfolding load
one_runs-HasIds k t at = ground (arith, only_key (pos 1) k tunnel_one t at, at)

-- A tunnel that its client brought runs, and the web interface.
abbrev brought : Tunnel
brought = record tunnel_one { no_store = true }

abbrev brought_runs : Server
brought_runs = record {
  db = record office { tasks = (pos 1, brought) ∷ [] };
  run_list = (pos 0, some web_server) ∷ ((pos 1, some (tunnel_mode_server process_tunnel)) ∷ []);
}

deal_bridge_task-close_client_example :
    (s' : Server) × (deal_bridge_task ids calm 0 (close_client (pos 1)) brought_runs ≡ some s')
    × Closed (pos 1) brought_runs s'
unfolding load
deal_bridge_task-close_client_example =
    deal_bridge_task-close_client ids calm (λ k. refl) 0 (pos 1) brought_runs (refl, tt) (refl, tt)
      tt tt

add_task_returns_example :
    (r : Server × Bool) × (add_task ids calm 2 (pos 2) (pos 80) (codes "webServer") one_runs
      ≡ some r)
unfolding beq_text
add_task_returns_example =
    add_task_returns ids calm 0 (pos 2) (pos 80) (codes "webServer") one_runs (λ up. refl, tt)

-- A client sent a task with the mode of the web interface.
abbrev trap : Server
trap = record {
  db = record office {
    tasks = (pos 1, record tunnel_one { mode = codes "webServer"; port = pos 80 }) ∷ [];
  };
  run_list = [];
}

add_task_diverges_example : add_task ids calm 9 (pos 1) (pos 80) (codes "webServer") trap ≡ none
unfolding test_server_port beq_text
add_task_diverges_example =
    add_task_diverges ids calm 9 (pos 1) (pos 80) trap (inl (refl, refl, refl)) refl

-- The table holds a tunnel that is to run, and the program has not started.
abbrev asleep : Server
asleep = record { db = one_runs.db; run_list = [] }

asleep-IsConsistent : IsConsistent (pos 0 ∷ []) asleep
unfolding load
asleep-IsConsistent = record {
  ids = one_runs-HasIds;
  runs = λ k v task at. absurd (ground (arith, at));
}

asleep-Boots : Boots ids calm (pos 0 ∷ []) asleep
unfolding load beq_text in_int_arr new_client
asleep-Boots = record {
  keyed = (refl, tt);
  distinct = (refl, tt);
  plain = (refl, tt);
  zero_other = refl;
  public_other = refl;
}

-- The tunnel, the HTTP host server and then the web interface, which takes its place.
abbrev awake : Server
awake = record asleep {
  run_list = (pos 1, some (tunnel_mode_server process_tunnel)) ∷ ((pos 0, some http_server) ∷ []);
}

abbrev on : Server
on = record awake { run_list = store (pos 0) (some web_server) awake.run_list }

Steps-IsConsistent_example : IsConsistent (pos 0 ∷ []) (stop_server ids calm (pos 1) on).0
unfolding new_mode beq_text add_task test_server_port store
Steps-IsConsistent_example =
    Steps-IsConsistent ids (pos 0 ∷ []) asleep (stop_server ids calm (pos 1) on).0
      (next (booted calm 2 asleep awake (some web_server) asleep-Boots refl)
        (next (stopped calm (pos 1) on) (here _)))
      asleep-IsConsistent

abbrev no_bridge : Bridge
no_bridge = record { client = []; register = []; ip_verify = false }

get_tunnel-select_example :
    (get_tunnel no_bridge
      (pos 0)
      (pos 10)
      (codes "tcp")
      (pos 0)
      []
      (codes "Remark")
      (codes "desc")
      one_runs).1.1
    ≡ 1
unfolding load beq_text
get_tunnel-select_example =
    get_tunnel-select no_bridge (pos 0) (pos 10) (codes "tcp") (pos 0) [] (codes "Remark")
      (codes "desc") one_runs one_runs-HasIds (refl, tt)
