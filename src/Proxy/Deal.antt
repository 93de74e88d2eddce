-- ===== src/Proxy/Deal.antt =====
-- server/proxy/base.go, tcp.go and udp.go: what becomes of a connection or a datagram of a user, up to the
-- link to the client. The flow of the client is there. Copying the bytes is not modelled.
pub mod Black
use nps_socks.Bridge.{Bridge, Link, Sent, dialed, opened, send_link_info}
use nps_socks.Bridge
use nps_socks.Common.BlackList.{is_black_ip, is_global_black_ip}
use nps_socks.File.Conns.{add_conn}
use nps_socks.File.Obj.{Client, Flow, Glob, Tunnel, Target}
use nps_socks.File.Targets.{Pick, picked, all_offline, panic, get_random_target}
use nps_socks.Proxy.{Denied, check_flow_and_conn_num}
use nps_socks.Prelude.{
  Text, Bool, Option, ℤ, ℕ, List, codes, none, some, true, false, if◌then◌else◌, pos, ◌∷◌, [],
}

-- What becomes of a connection: `linked` has how the link was made.
pub data Served : Type 0 where
  black not_linked no_target crashed : Served
  denied : Denied → Served
  linked : Link → Sent → Served

pub record Dealt : Type 0 where
  pub global : Option Glob
  pub client : Client
  pub served : Served

-- `NewLink`, with its default timeout of 5 seconds
abbrev pub new_link : Text → Text → Client → Text → Bool → Link
new_link tp addr client remote_addr local_proxy = record {
  conn_type = tp;
  host = addr;
  crypt = client.cnf.crypt;
  compress = client.cnf.compress;
  local_proxy = local_proxy;
  remote_addr = remote_addr;
  timeout = pos 5;
}

-- Whether SendLinkInfo gives a connection.
abbrev pub served_of : Link → Sent → Served
served_of link (dialed host) = linked link (dialed host)
served_of link (opened mux wrote link') = linked link (opened mux wrote link')
served_of link Bridge.not_in_list = not_linked
served_of link Bridge.expired = not_linked
served_of link Bridge.no_tunnel = not_linked
served_of link Bridge.no_conn = not_linked
served_of link Bridge.not_sent = not_linked
served_of link Bridge.not_connected = not_linked

-- `new_conn` and `sends` are what the multiplexers do, `now` is the time and `s` the bridge.
module _ (new_conn sends : ℕ → Bool) (now : ℤ) (s : Bridge) where
  -- DealClient of a task for a connection from `remote`
  unfoldable pub deal_client :
      (remote addr tp : Text) → Bool → Option Tunnel → Option Glob → Client → Dealt
  unfolding is_black_ip is_global_black_ip send_link_info
  deal_client remote addr tp local_proxy t global client =
      let (global', everywhere) = is_global_black_ip remote global in
      let (sorted, here) = is_black_ip remote client.black_ip_list in
      let client' = record client { black_ip_list = sorted } in
      let link = new_link tp addr client remote local_proxy in
      if everywhere
      then record { global = global'; client = client; served = black }
      else if here
      then record { global = global'; client = client'; served = black }
      else record {
        global = global';
        client = client';
        served = served_of link (send_link_info new_conn sends now client.id link t s);
      }

  -- ProcessTunnel for the task `t`, whose target is at its turn
  abbrev pub process_picked : Text → Tunnel → Option Glob → Client → Pick → Dealt
  process_picked remote t global client (picked addr) =
      deal_client remote addr (codes "tcp") t.target.local_proxy (some t) global client
  process_picked remote t global client all_offline = record {
    global = global;
    client = client;
    served = no_target;
  }
  process_picked remote t global client panic = record {
    global = global;
    client = client;
    served = crashed;
  }

  abbrev pub counted_down : Dealt → Dealt
  counted_down d = record d { client = add_conn d.client }

  -- The callback of `Start`, with the target afterwards: the count of the client goes down again when the
  -- connection is done.
  abbrev pub admitted :
      Text → Tunnel → Option Glob → Client × Option Denied → Target × Pick → Target × Dealt
  admitted remote t global (client, some why) (target, pick) =
      (t.target, record { global = global; client = client; served = denied why })
  admitted remote t global (client, none) (target, pick) =
      (target, counted_down (process_picked remote t global client pick))

  unfoldable pub tunnel_connection : Text → Tunnel → Flow → Option Glob → Client → Target × Dealt
  unfolding check_flow_and_conn_num deal_client get_random_target add_conn
  tunnel_connection remote t flow global client =
      admitted remote t global (check_flow_and_conn_num flow client) (get_random_target t.target)

-- The loop of the UDP service: the datagrams, each with its address, that are handed to `process`. One from
-- an address of a black list ends the loop.
unfoldable pub udp_start : Option Glob → List Text → List (Text × Text) → List (Text × Text)
unfolding is_black_ip is_global_black_ip
udp_start global black_ip_list [] = []
udp_start global black_ip_list ((addr, body) ∷ more) =
    let (global', everywhere) = is_global_black_ip addr global in
    let (sorted, here) = is_black_ip addr black_ip_list in
    let rest = udp_start global' sorted more in
    if everywhere then [] else if here then [] else (addr, body) ∷ rest
