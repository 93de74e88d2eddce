-- ===== src/File/Hosts.antt =====
-- lib/file/db.go and lib/file/obj.go: the hosts, and the route of an HTTP request. Of the request
-- only the scheme of its URL and its URI are read.
pub mod Routes
pub mod Unique
use nps_socks.SyncMap.{delete, load, Table, values, store}
use nps_socks.Prelude.{
  Bool, Option, ℤ, Text, if◌then◌else◌, not, any, ◌==◌, none, contains, has_prefix, List, ◌&&◌, [],
  some, codes, ◌∷◌, map, ◌||◌, replace_all, ltb, select, int_eq, text_eq, length,
}
use nps_socks.Common.Addr.{get_ip_by_addr}
use nps_socks.File.JsonDb.{Codec, JsonDb, store_hosts_to_json_file}
use nps_socks.File.Obj.{empty_flow, Client, Host}

-- `Host`, `Location` and `Scheme` of an entry other than `h` stand in its way.
abbrev pub clashes : Host → Host → Bool
clashes h v =
    not (v.id == h.id)
    && (v.host == h.host
        && (h.location == v.location && (v.scheme == codes "all" || v.scheme == h.scheme)))

unfoldable pub is_host_exist : Host → JsonDb → Bool
is_host_exist h s = any (clashes h) (values s.hosts)

unfoldable pub has_host : Client → Host → JsonDb → Bool
has_host s h db =
    any (λ v. v.client.id == s.id && (v.host == h.host && h.location == v.location))
      (values db.hosts)

-- `if t.Location == "" { t.Location = "/" }`
abbrev pub located : Host → Host
located t = if t.location == [] then record t { location = codes "/" } else t

module _ (codec : Codec) where
  -- `none` is the error that the host exists.
  unfoldable pub new_host : Host → JsonDb → Option JsonDb
  unfolding is_host_exist store_hosts_to_json_file
  new_host t s =
      let t' = located t in
      if is_host_exist t' s
      then none
      else some (
          store_hosts_to_json_file codec
            (record s { hosts = store t'.id (record t' { flow = some empty_flow }) s.hosts }))

  unfoldable pub del_host : ℤ → JsonDb → JsonDb
  unfolding store_hosts_to_json_file
  del_host id s = store_hosts_to_json_file codec (record s { hosts = delete id s.hosts })

unfoldable pub get_host_by_id : ℤ → JsonDb → Option Host
get_host_by_id id s = load id s.hosts

-- The host of an entry may hold `*`, which is dropped and then looked for inside the request's host.
abbrev pub host_matches : Text → Text → Bool
host_matches tmp_host host =
    if contains tmp_host (codes "*")
    then contains host (replace_all tmp_host (codes "*") [])
    else tmp_host == host

-- The callback of the first loop of GetInfoByHost.
abbrev pub candidate : Text → Text → Host → Bool
candidate host scheme v =
    not v.is_close && ((v.scheme == codes "all" || v.scheme == scheme) && host_matches v.host host)

-- One step of the second loop: the longest location that the URI begins with, the first of them.
unfoldable pub choose : Text → Option Host → Host → Option Host
choose uri none v = if has_prefix uri v.location then some v else none
choose uri (some h) v =
    if has_prefix uri v.location && ltb (length h.location) (length v.location)
    then some v
    else some h

unfoldable pub choose_all : Text → Option Host → List Host → Option Host
unfolding choose
choose_all uri h [] = h
choose_all uri h (v ∷ vs) = choose_all uri (choose uri h v) vs

-- The entries that are candidates get their location set in place.
abbrev locate_all : (Host → Bool) → Table Host → Table Host
locate_all p [] = []
locate_all p ((k, v) ∷ m) = (k, if p v then located v else v) ∷ locate_all p m

abbrev pub candidates : Text → Text → JsonDb → List Host
candidates host scheme s =
    map located (select (candidate (get_ip_by_addr host) scheme) (values s.hosts))

-- `none` is the error that the host could not be parsed.
unfoldable pub get_info_by_host : Text → Text → Text → JsonDb → JsonDb × Option Host
unfolding choose_all
get_info_by_host host scheme uri s = (
  record s { hosts = locate_all (candidate (get_ip_by_addr host) scheme) s.hosts },
  choose_all uri none (candidates host scheme s),
)
