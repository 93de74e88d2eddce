-- ===== src/Tests/Http.antt =====
-- server/proxy/http.go at a concrete request.
use nps_socks.Proxy.Http.{HttpRequest, handle_http}
use nps_socks.Proxy.Http.Admitted.{IsAdmitted, handle_http-IsAdmitted}
use nps_socks.Proxy.Deal.{new_link}
use nps_socks.Bridge.{Bridge, dialed}
use nps_socks.File.Obj.{Client, Host}
use nps_socks.File.JsonDb.{JsonDb}
use nps_socks.Tests.Db.{alice, office}
use nps_socks.Tests.Tunnels.{site}
use nps_socks.Prelude.{true, some, none, codes, pos, ◌∷◌, [], refl}
use nps_socks.Prelude.{beq_text}
use nps_socks.Prelude.{contains}
use nps_socks.Common.Addr.{get_ip_by_addr}
use nps_socks.Prelude.{split}
use nps_socks.Prelude.{last_index}
use nps_socks.Prelude.{count}

abbrev guarded : Client
guarded = record alice {
  cnf = record alice.cnf { u = codes "u"; p = codes "p" };
  black_ip_list = codes "9.9.9.9" ∷ [];
}

abbrev local_site : Host
local_site = record site {
  client = guarded;
  target = record site.target { target_str = codes "10.0.0.1:80"; local_proxy = true };
}

abbrev local_db : JsonDb
local_db = record office { hosts = (pos 1, local_site) ∷ [] }

abbrev request : HttpRequest
request = record {
  host = codes "a.com";
  uri = codes "/x";
  scheme = codes "http";
  authorization = codes "Basic dTpw";
  proxy_authorization = [];
  remote_addr = codes "1.2.3.4:5";
}

abbrev idle : Bridge
idle = record { client = []; register = []; ip_verify = true }

handle_http-IsAdmitted_example :
    IsAdmitted
      (λ t. some (codes "u:p"))
      (λ n. true)
      (λ n. true)
      (pos 0)
      idle
      (codes "1.2.3.4:5")
      request
      none
      local_db
      (new_link (codes "http") (codes "10.0.0.1:80") guarded (codes "1.2.3.4:5") true)
      (dialed (codes "10.0.0.1:80"))
unfolding handle_http beq_text contains get_ip_by_addr split last_index count
handle_http-IsAdmitted_example =
    handle_http-IsAdmitted (λ t. some (codes "u:p")) (λ n. true) (λ n. true) (pos 0) idle
      (codes "1.2.3.4:5") request none local_db
      (new_link (codes "http") (codes "10.0.0.1:80") guarded (codes "1.2.3.4:5") true)
      (dialed (codes "10.0.0.1:80")) refl
