-- ===== src/Proxy/Http.antt =====
-- server/proxy/http.go: what becomes of a request to a host, up to the link to the client, with the
-- authorization of server/proxy/base.go and lib/common/util.go. What `addr` reads of the request and its
-- headers are fields; the base64 decoder is a parameter. Copying the bytes is not modelled, nor the later
-- requests of the connection.
pub mod Admitted
use nps_socks.Bridge.{Bridge, send_link_info}
use nps_socks.Common.BlackList.{is_black_ip, is_global_black_ip}
use nps_socks.File.Conns.{add_conn}
use nps_socks.File.Hosts.{get_info_by_host}
use nps_socks.File.JsonDb.{JsonDb}
use nps_socks.File.Obj.{Config, Client, Flow, Glob, Host, Target}
use nps_socks.File.Targets.{Pick, picked, all_offline, panic, get_random_target}
use nps_socks.Proxy.{Denied, check_flow_and_conn_num}
use nps_socks.Proxy.Deal.{Served, black, denied, no_target, crashed, new_link, served_of}
use nps_socks.Prelude.{
  Text, Bool, Option, ℤ, ℕ, List, codes, none, some, true, false, if◌then◌else◌, pos, ◌∷◌, [], ◌==◌,
  text_eq, nat_eq, not, ◌&&◌,
}

pub record HttpRequest : Type 0 where
  pub host : Text
  pub uri : Text
  pub scheme : Text
  pub authorization : Text
  pub proxy_authorization : Text
  pub remote_addr : Text

-- `SplitN` into two at the first separator, if there is one
abbrev pub split_two : ℕ → Text → Option (Text × Text)
split_two sep [] = none
split_two sep (x ∷ xs) =
    if x == sep
    then some ([], xs)
    else elim (split_two sep xs) [ none ↦ none | some (a, b) ↦ some (x ∷ a, b) ]

abbrev pub second : Option (Text × Text) → Option Text
second none = none
second (some (a, b)) = some b

abbrev pub first_of : Option Text → Option Text → Option Text
first_of none p = p
first_of (some a) p = some a

-- The user and the password of the header, which are encoded.
abbrev pub credentials : HttpRequest → Option Text
credentials r =
    first_of (second (split_two 32 r.authorization)) (second (split_two 32 r.proxy_authorization))

abbrev pub is_pair : Text → Text → Option (Text × Text) → Bool
is_pair user passwd none = false
is_pair user passwd (some (u, p)) = u == user && p == passwd

abbrev pub decoded_is : Text → Text → Option Text → Bool
decoded_is user passwd none = false
decoded_is user passwd (some b) = is_pair user passwd (split_two 58 b)

-- What becomes of a request.
pub data Handled : Type 0 where
  no_host unauthorized : Handled
  served : Served → Handled

-- With the global settings and the host afterwards.
pub record Handling : Type 0 where
  pub handled : Handled
  pub global : Option Glob
  pub to : Option Host

-- After the checks of flow and connections. The count of the client goes down when the request is done.
abbrev pub counted : Handling → Handling
counted d = elim d.to [
  | none ↦ d
  | some h ↦ record d { to = some (record h { client = add_conn h.client }) }
]

module _ (base64 : Text → Option Text) where
  abbrev pub decoded : Option Text → Option Text
  decoded none = none
  decoded (some s) = base64 s

  unfoldable pub check_auth : HttpRequest → Text → Text → Bool
  check_auth r user passwd = decoded_is user passwd (decoded (credentials r))

  -- `auth` of server/proxy/base.go
  abbrev pub is_authorized : HttpRequest → Config → Bool
  is_authorized r c = not (not (c.u == []) && (not (c.p == []) && not (check_auth r c.u c.p)))

  -- `new_conn` and `sends` are what the multiplexers do, `now` is the time and `s` the bridge.
  module _ (new_conn sends : ℕ → Bool) (now : ℤ) (s : Bridge) where
    abbrev pub linked_to : Text → HttpRequest → Bool → Client → Served
    linked_to addr r local_proxy c =
        let link = new_link (codes "http") addr c r.remote_addr local_proxy in
        served_of link (send_link_info new_conn sends now c.id link none s)

    -- With a target of the host.
    abbrev pub with_target : Text → HttpRequest → Option Glob → Host → Target × Pick → Handling
    with_target remote r global h (t, picked addr) =
        let (sorted, here) = is_black_ip remote h.client.black_ip_list in
        let c = record h.client { black_ip_list = sorted } in
        record {
          handled = served (if here then black else linked_to addr r t.local_proxy c);
          global = global;
          to = some (record h { client = c; target = t });
        }
    with_target remote r global h (t, all_offline) = record {
      handled = served no_target;
      global = global;
      to = some (record h { target = t });
    }
    with_target remote r global h (t, panic) = record {
      handled = served crashed;
      global = global;
      to = some (record h { target = t });
    }

    abbrev pub checked : Text → HttpRequest → Option Glob → Host → Client × Option Denied → Handling
    checked remote r global h (c, some why) = record {
      handled = served (denied why);
      global = global;
      to = some (record h { client = c });
    }
    checked remote r global h (c, none) = counted (
        if is_authorized r c.cnf
        then with_target remote r global (record h { client = c }) (get_random_target h.target)
        else record {
          handled = unauthorized;
          global = global;
          to = some (record h { client = c });
        })

    abbrev pub with_flow : Text → HttpRequest → Option Glob → Host → Option Flow → Handling
    with_flow remote r global h none = record {
      handled = served crashed;
      global = global;
      to = some h;
    }
    with_flow remote r global h (some f) =
        checked remote r global h (check_flow_and_conn_num f h.client)

    abbrev pub found : Text → HttpRequest → Option Glob → Option Host → Handling
    found remote r global none = record { handled = no_host; global = global; to = none }
    found remote r global (some h) = with_flow remote r global h h.client.flow

    unfoldable pub handle_http : Text → HttpRequest → Option Glob → JsonDb → Handling
    unfolding is_global_black_ip get_info_by_host check_auth check_flow_and_conn_num is_black_ip
        get_random_target send_link_info add_conn
    handle_http remote r global db =
        let (global', everywhere) = is_global_black_ip remote global in
        if everywhere
        then record { handled = served black; global = global'; to = none }
        else found remote r global' (get_info_by_host r.host r.scheme r.uri db).1
