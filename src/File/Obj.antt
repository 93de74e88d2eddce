-- ===== src/File/Obj.antt =====
-- lib/file/obj.go: the objects of the database. A pointer that the code tests against nil is an
-- `Option`; mutexes are left out: an operation that takes one is one step.
use nps_socks.Prelude.{Bool, true, false, Option, none, some, List, [], ℤ, pos, Text}
use nps_socks.Rate.{Rate}

pub record Flow : Type 0 where
  pub export_flow : ℤ
  pub inlet_flow : ℤ
  pub flow_limit : ℤ

-- `new(Flow)`
abbrev pub empty_flow : Flow
empty_flow = record { export_flow = pos 0; inlet_flow = pos 0; flow_limit = pos 0 }

pub record Config : Type 0 where
  pub u : Text
  pub p : Text
  pub compress : Bool
  pub crypt : Bool

pub record Client : Type 0 where
  pub cnf : Config
  pub id : ℤ
  pub verify_key : Text
  pub addr : Text
  pub remark : Text
  pub status : Bool
  pub is_connect : Bool
  pub rate_limit : ℤ
  pub flow : Option Flow
  pub rate : Option Rate
  pub no_store : Bool
  pub no_display : Bool
  pub max_conn : ℤ
  pub now_conn : ℤ
  pub web_user_name : Text
  pub web_password : Text
  pub config_conn_allow : Bool
  pub max_tunnel_num : ℤ
  pub version : Text
  pub black_ip_list : List Text
  pub create_time : Text
  pub last_online_time : Text

-- `NewClient(vKey, noStore, noDisplay)` of obj.go
abbrev pub make_client : Text → Bool → Bool → Client
make_client v_key no_store no_display = record {
  cnf = record { u = []; p = []; compress = false; crypt = false };
  id = pos 0;
  verify_key = v_key;
  addr = [];
  remark = [];
  status = true;
  is_connect = false;
  rate_limit = pos 0;
  flow = some empty_flow;
  rate = none;
  no_store = no_store;
  no_display = no_display;
  max_conn = pos 0;
  now_conn = pos 0;
  web_user_name = [];
  web_password = [];
  config_conn_allow = false;
  max_tunnel_num = pos 0;
  version = [];
  black_ip_list = [];
  create_time = [];
  last_online_time = [];
}

pub record Target : Type 0 where
  pub now_index : ℤ
  pub target_str : Text
  pub target_arr : Option (List Text)
  pub local_proxy : Bool

pub record MultiAccount : Type 0 where
  pub account_map : List (Text × Text)

pub record PortConfig : Type 0 where
  pub flow_limit : ℤ
  pub rate_limit : ℤ
  pub max_conn : ℤ
  pub now_conn : ℤ
  pub expire_time : Text

-- `HealthNextTime` is a time in seconds.
pub record Health : Type 0 where
  pub health_check_timeout : ℤ
  pub health_max_fail : ℤ
  pub health_check_interval : ℤ
  pub health_next_time : ℤ
  pub health_map : List (Text × ℤ)
  pub http_health_url : Text
  pub health_remove_arr : Option (List Text)
  pub health_check_type : Text
  pub health_check_target : Text

-- `Client` is a pointer in Go. The operations of the model read `Id`, `VerifyKey` and `Cnf` through
-- it; those of the web interface, which write to a client that tunnels and hosts already have, write
-- to its copies in these too.
pub record Tunnel : Type 0 where
  pub id : ℤ
  pub port : ℤ
  pub s5_user : Text
  pub port_config : Option PortConfig
  pub create_time : Text
  pub server_ip : Text
  pub mode : Text
  pub status : Bool
  pub run_status : Bool
  pub client : Client
  pub ports : Text
  pub flow : Option Flow
  pub password : Text
  pub remark : Text
  pub target_addr : Text
  pub no_store : Bool
  pub is_http : Bool
  pub local_path : Text
  pub strip_pre : Text
  pub target : Target
  pub multi_account : Option MultiAccount
  pub health : Health

pub record Host : Type 0 where
  pub id : ℤ
  pub host : Text
  pub header_change : Text
  pub host_change : Text
  pub location : Text
  pub remark : Text
  pub scheme : Text
  pub cert_file_path : Text
  pub key_file_path : Text
  pub no_store : Bool
  pub is_close : Bool
  pub auto_https : Bool
  pub flow : Option Flow
  pub client : Client
  pub target : Target
  pub health : Health

pub record Glob : Type 0 where
  pub black_ip_list : List Text
