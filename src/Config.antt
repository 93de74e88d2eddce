-- ===== src/Config.antt =====
-- lib/config/config.go: the sections of a client's configuration file, one function for each kind.
pub mod Sections
use nps_socks.Common.Arrays.{get_bool_by_str, get_int_no_err_by_str}
use nps_socks.Prelude.{
  text_eq, ◌∷◌, Text, ℤ, Bool, split, List, replace_all, Option, trim_space, [], pos, if◌then◌else◌,
  get_or, codes, ◌==◌, split_text, false, none, some, contains, ltb, ◌++◌, length, true,
}
use nps_socks.File.Obj
use nps_socks.File.Obj.{Client, Flow, Health, Host, Target, Tunnel, MultiAccount, make_client}

pub record CommonConfig : Type 0 where
  pub server : Text
  pub v_key : Text
  pub tp : Text
  pub auto_reconnection : Bool
  pub tls_enable : Bool
  pub proxy_url : Text
  pub client : Client
  pub disconnect_time : ℤ

pub record LocalServer : Type 0 where
  pub type : Text
  pub port : ℤ
  pub ip : Text
  pub password : Text
  pub target : Text

-- `item[0]` and `item[1]` of a line, where a missing `item[1]` is the empty text
abbrev pub item : Text → Text × Text
item v = let parts = split b'=' v in (get_or parts 0 [], get_or parts 1 [])

-- `f` is called on the name and the value of each line, in order.
abbrev pub fold_items : {S : Type 0} → (Text × Text → S → S) → List Text → S → S
fold_items f [] s = s
fold_items f (v ∷ vs) s = fold_items f vs (f (item v) s)

abbrev with_cnf : CommonConfig → Obj.Config → CommonConfig
with_cnf c cnf = record c { client = record c.client { cnf = cnf } }

-- The flow of the client that `NewClient` makes is there.
abbrev flow_limited : ℤ → Option Flow → Option Flow
flow_limited n none = none
flow_limited n (some f) = some (record f { flow_limit = n })

-- One line of the common section. `pprof_addr` starts a server for profiles and changes nothing.
common_item : Text × Text → CommonConfig → CommonConfig
common_item (key, value) c =
    let cnf = c.client.cnf in
    if key == codes "server_addr"
    then record c { server = value }
    else if key == codes "vkey"
    then record c { v_key = value }
    else if key == codes "conn_type"
    then record c { tp = value }
    else if key == codes "auto_reconnection"
    then record c { auto_reconnection = get_bool_by_str value }
    else if key == codes "basic_username"
    then with_cnf c (record cnf { u = value })
    else if key == codes "basic_password"
    then with_cnf c (record cnf { p = value })
    else if key == codes "web_password"
    then record c { client = record c.client { web_password = value } }
    else if key == codes "web_username"
    then record c { client = record c.client { web_user_name = value } }
    else if key == codes "compress"
    then with_cnf c (record cnf { compress = get_bool_by_str value })
    else if key == codes "crypt"
    then with_cnf c (record cnf { crypt = get_bool_by_str value })
    else if key == codes "proxy_url"
    then record c { proxy_url = value }
    else if key == codes "rate_limit"
    then record c { client = record c.client { rate_limit = get_int_no_err_by_str value } }
    else if key == codes "flow_limit"
    then record c {
      client = record c.client { flow = flow_limited (get_int_no_err_by_str value) c.client.flow };
    }
    else if key == codes "max_conn"
    then record c { client = record c.client { max_conn = get_int_no_err_by_str value } }
    else if key == codes "remark"
    then record c { client = record c.client { remark = value } }
    else if key == codes "disconnect_timeout"
    then record c { disconnect_time = get_int_no_err_by_str value }
    else if key == codes "tls_enable"
    then record c { tls_enable = get_bool_by_str value }
    else c

-- One line of a section for a local port.
local_item : Text × Text → LocalServer → LocalServer
local_item (key, value) l =
    if key == codes "local_port"
    then record l { port = get_int_no_err_by_str value }
    else if key == codes "local_ip"
    then record l { ip = value }
    else if key == codes "password"
    then record l { password = value }
    else if key == codes "target_addr"
    then record l { target = value }
    else l

-- An entry of a map from texts to texts.
abbrev pub put : Text → Text → List (Text × Text) → List (Text × Text)
put key value [] = (key, value) ∷ []
put key value ((k, v) ∷ rest) =
    let others = put key value rest in if k == key then (key, value) ∷ rest else (k, v) ∷ others

-- `windows` is `common.IsWindows()`.
module _ (windows : Bool) where
  unfoldable pub split_str : Text → List Text
  split_str s =
      let lines = if windows then split_text s (b'\r' ∷ b'\n' ∷ []) else [] in
      if ltb (length lines) 3 then split b'\n' s else lines

  unfoldable pub deal_multi_user : Text → List (Text × Text)
  unfolding split_str
  deal_multi_user s = fold_items (λ i m. put (trim_space i.0) i.1 m) (split_str s) []

  unfoldable pub deal_common : Text → CommonConfig
  unfolding split_str common_item
  deal_common s = fold_items common_item (split_str s) (record {
    server = [];
    v_key = [];
    tp = [];
    auto_reconnection = false;
    tls_enable = false;
    proxy_url = [];
    client = make_client [] true true;
    disconnect_time = pos 0;
  })

  unfoldable pub del_local_service : Text → LocalServer
  unfolding split_str local_item
  del_local_service s =
      fold_items local_item (split_str s)
        (record { type = []; port = pos 0; ip = []; password = []; target = [] })
