-- ===== src/Tests/Tunnels.antt =====
-- The tunnels and hosts of lib/file at concrete inputs.
use nps_socks.File.Hosts.Unique.{new_host-IsSound}
use nps_socks.Prelude.{
  codes, pos, sym, ◌≡◌, ◌∷◌, none, [], ◌∙◌, any, false, All, some, has_prefix, refl, ◌==◌, ◌⊎◌,
  true, ℤ, if◌then◌else◌, int_eq, text_eq,
}
use nps_socks.File.Hosts.{new_host, get_info_by_host, clashes, located, candidates}
use nps_socks.SyncMap.{load, values}
use nps_socks.File.JsonDb.{JsonDb}
use nps_socks.File.Obj.{Tunnel, Host, empty_flow}
use nps_socks.File.Tasks.Secrets
use nps_socks.File.Hosts.Unique
use nps_socks.File.Hosts.Routes.{Among, IsLongest, get_info_by_host-IsLongest}
use nps_socks.Tests.Handshake.{task_of}
use nps_socks.Tests.Db.{ids, alice, office, only_key}

abbrev secret : Tunnel
secret = record (task_of alice) { mode = codes "secret"; password = codes "pw" }

abbrev one_task : JsonDb
one_task = record office { tasks = (pos 1, secret) ∷ [] }

abbrev other_secret : Tunnel
other_secret = record secret { id = pos 2; password = codes "qw" }

abbrev pub site : Host
site = record {
  id = pos 1;
  host = codes "a.com";
  header_change = [];
  host_change = [];
  location = codes "/";
  remark = [];
  scheme = codes "all";
  cert_file_path = [];
  key_file_path = [];
  no_store = false;
  is_close = false;
  auto_https = false;
  flow = some empty_flow;
  client = alice;
  target = secret.target;
  health = secret.health;
}

abbrev one_host : JsonDb
one_host = record office { hosts = (pos 1, site) ∷ [] }

abbrev api : Host
api = record site { id = pos 2; location = codes "/api" }

one_host-IsSound : Unique.IsSound one_host
unfolding load
one_host-IsSound = record {
  keyed = (refl, tt);
  distinct = (refl, tt);
  apart = λ i j a b p q e f g. sym (only_key (pos 1) i site a p) ∙ only_key (pos 1) j site b q;
}

new_host-IsSound_example :
    ((new_host ids api one_host ≡ none)
      × (any (clashes (located api)) (values one_host.hosts) ≡ true))
    ⊎ ((s' : JsonDb) × (new_host ids api one_host ≡ some s')
        × Unique.IsSound s'
        × ((k : ℤ)
            → load k s'.hosts ≡ (
                if (located api).id == k
                then some (record (located api) { flow = some empty_flow })
                else load k one_host.hosts)))
new_host-IsSound_example = new_host-IsSound ids api one_host one_host-IsSound

abbrev two_sites : JsonDb
two_sites = record office { hosts = (pos 1, site) ∷ (pos 2, api) ∷ [] }

get_info_by_host-IsLongest_example :
    (((get_info_by_host (codes "a.com") (codes "http") (codes "/api/x") two_sites).1 ≡ none)
      × All
          (λ v. has_prefix (codes "/api/x") v.location ≡ false)
          (candidates (codes "a.com") (codes "http") two_sites))
    ⊎ ((h : Host) × ((get_info_by_host (codes "a.com") (codes "http") (codes "/api/x") two_sites).1
          ≡ some h)
        × (has_prefix (codes "/api/x") h.location ≡ true)
        × IsLongest (codes "/api/x") h (candidates (codes "a.com") (codes "http") two_sites)
        × Among h (candidates (codes "a.com") (codes "http") two_sites))
get_info_by_host-IsLongest_example =
    get_info_by_host-IsLongest (codes "a.com") (codes "http") (codes "/api/x") two_sites
