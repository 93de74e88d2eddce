-- ===== src/Config/Sections.antt =====
-- lib/config/config.go: the sections of hosts, tunnels and health checks.
use nps_socks.Common.Arrays.{get_int_no_err_by_str}
use nps_socks.Prelude.{
  ◌∷◌, text_eq, Text, pos, Bool, replace_all, [], trim_space, Option, codes, none, List,
  if◌then◌else◌, false, ◌==◌, some, contains, ◌++◌,
}
use nps_socks.File.Obj.{Client, Health, Host, Target, Tunnel}
use nps_socks.Config.{split_str, fold_items, deal_multi_user}

-- `strings.Replace(item[1], ",", "\n", -1)`
abbrev lines_of : Text → Text
lines_of s = replace_all s (codes ",") (b'\n' ∷ [])

abbrev pub zero_health : Health
zero_health = record {
  health_check_timeout = pos 0;
  health_max_fail = pos 0;
  health_check_interval = pos 0;
  health_next_time = pos 0;
  health_map = [];
  http_health_url = [];
  health_remove_arr = none;
  health_check_type = [];
  health_check_target = [];
}

abbrev pub zero_target : Target
zero_target = record { now_index = pos 0; target_str = []; target_arr = none; local_proxy = false }

-- One line of a health section.
health_item : Text × Text → Health → Health
health_item (name, value) h =
    let key = trim_space name in
    if key == codes "health_check_timeout"
    then record h { health_check_timeout = get_int_no_err_by_str value }
    else if key == codes "health_check_max_failed"
    then record h { health_max_fail = get_int_no_err_by_str value }
    else if key == codes "health_check_interval"
    then record h { health_check_interval = get_int_no_err_by_str value }
    else if key == codes "health_http_url"
    then record h { http_health_url = value }
    else if key == codes "health_check_type"
    then record h { health_check_type = value }
    else if key == codes "health_check_target"
    then record h { health_check_target = value }
    else h

-- One line of a host, with the headers so far.
host_item : Text × Text → Host × Text → Host × Text
host_item (name, value) (h, headers) =
    let key = trim_space name in
    if key == codes "host"
    then (record h { host = value }, headers)
    else if key == codes "target_addr"
    then (record h { target = record h.target { target_str = lines_of value } }, headers)
    else if key == codes "host_change"
    then (record h { host_change = value }, headers)
    else if key == codes "scheme"
    then (record h { scheme = value }, headers)
    else if key == codes "location"
    then (record h { location = value }, headers)
    else (let headers' =
          if contains name (codes "header")
          then headers
            ++ (replace_all name (codes "header_") [] ++ (b':' ∷ (value ++ (b'\n' ∷ []))))
          else headers in
        (record h { header_change = headers' }, headers'))

-- `windows` is `common.IsWindows()`.
module _ (windows : Bool) where
  unfoldable pub deal_health : Text → Health
  unfolding split_str health_item
  deal_health s = fold_items health_item (split_str windows s) zero_health

  -- `nil` stands for the nil pointer to a client, which nothing here reads.
  module _ (nil : Client) where
    unfoldable pub deal_host : Text → Host
    unfolding split_str host_item
    deal_host s =
        (fold_items host_item (split_str windows s) (
          record {
            id = pos 0;
            host = [];
            header_change = [];
            host_change = [];
            location = [];
            remark = [];
            scheme = codes "all";
            cert_file_path = [];
            key_file_path = [];
            no_store = false;
            is_close = false;
            auto_https = false;
            flow = none;
            client = nil;
            target = zero_target;
            health = zero_health;
          },
          [],
        )).0

    -- `file` gives the text of a file that exists, with its environment variables filled in.
    module _ (file : Text → Option Text) where
      abbrev accounts : Option Text → List (Text × Text)
      accounts none = []
      accounts (some content) = deal_multi_user windows content

      tunnel_item : Text × Text → Tunnel → Tunnel
      unfolding deal_multi_user
      tunnel_item (name, value) t =
          let key = trim_space name in
          if key == codes "server_port"
          then record t { ports = value }
          else if key == codes "server_ip"
          then record t { server_ip = value }
          else if key == codes "mode"
          then record t { mode = value }
          else if key == codes "target_addr"
          then record t { target = record t.target { target_str = lines_of value } }
          else if key == codes "target_port"
          then record t { target = record t.target { target_str = value } }
          else if key == codes "target_ip"
          then record t { target_addr = value }
          else if key == codes "password"
          then record t { password = value }
          else if key == codes "local_path"
          then record t { local_path = value }
          else if key == codes "strip_pre"
          then record t { strip_pre = value }
          else if key == codes "multi_account"
          then record t { multi_account = some (record { account_map = accounts (file value) }) }
          else t

      unfoldable pub deal_tunnel : Text → Tunnel
      unfolding split_str tunnel_item
      deal_tunnel s = fold_items tunnel_item (split_str windows s) (record {
        id = pos 0;
        port = pos 0;
        s5_user = [];
        port_config = none;
        create_time = [];
        server_ip = [];
        mode = [];
        status = false;
        run_status = false;
        client = nil;
        ports = [];
        flow = none;
        password = [];
        remark = [];
        target_addr = [];
        no_store = false;
        is_http = false;
        local_path = [];
        strip_pre = [];
        target = zero_target;
        multi_account = none;
        health = zero_health;
      })
