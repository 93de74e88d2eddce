-- ===== src/Web/Unguarded.antt =====
-- web/controllers/index.go: an edit that the check for equal routes lets through.
use nps_socks.Web.Request.{Request, get_int_no_err, get_escape_string}
use nps_socks.Web.Hosts.{edit_host, edited}
use nps_socks.Web.Tunnels.{ok}
use nps_socks.File.JsonDb.{Codec, JsonDb, get_client, store_hosts_to_json_file}
use nps_socks.File.Hosts.{get_host_by_id, clashes, new_host, is_host_exist}
use nps_socks.File.Obj.{Host, Client}
use nps_socks.SyncMap.{load, store, load-store, values, any-values-load}
use nps_socks.Prelude.{
  ℤ, some, true, false, ◌≡◌, ◌≢◌, refl, codes, ==_refl, ==_iff, int_eq, text_eq, arith, ◌∙◌, ◌==◌,
  none, [], any, ap, Bool-cases, inl, inr,
}

-- Another host of the table has the name, the location and a scheme that covers the host's, and NewHost
-- would refuse the host.
abbrev pub IsDouble : Codec → ℤ → JsonDb → Type 0
IsDouble codec id db =
    (h : Host) × (v : Host) × (load id db.hosts ≡ some h)
    × (load v.id db.hosts ≡ some v)
    × (clashes h v ≡ true)
    × (new_host codec h db ≡ none)

-- NewHost refuses a host whose location is given and that another one of the table clashes with.
new_host-clashes :
    (codec : Codec) (h v : Host) (db : JsonDb)
    → (h.location == []) ≡ false
    → load v.id db.hosts ≡ some v
    → clashes h v ≡ true
    → new_host codec h db ≡ none
unfolding new_host is_host_exist
new_host-clashes codec h v db given at taken =
    let there : any (clashes h) (values db.hosts) ≡ true =
      elim (Bool-cases (any (clashes h) (values db.hosts))) [
        | inl yes_there ↦ yes_there
        | inr free ↦
            absurd (ground (arith, any-values-load (clashes h) v.id v db.hosts free at, taken))
      ] in
    rw (given, there) refl

module _ (codec : Codec) where
  -- The edit of a host under its name.
  edit_host-edited :
      (r : Request) (db : JsonDb) (h : Host) (c : Client)
      → r.is_get ≡ false
      → load (get_int_no_err r (codes "id")) db.hosts ≡ some h
      → h.host ≡ get_escape_string r (codes "host")
      → load (get_int_no_err r (codes "client_id")) db.clients ≡ some c
      → edit_host codec r db ≡ (
        store_hosts_to_json_file codec
            (record db { hosts = store (get_int_no_err r (codes "id")) (edited r c h) db.hosts }),
        ok,
      )
  unfolding edit_host get_host_by_id get_client
  edit_host-edited r db h c posted at name owner =
      ground (arith, posted, at, name, owner, ==_iff h.host (get_escape_string r (codes "host")))

  clashes-edited :
      (r : Request) (h v : Host) (c : Client)
      → v.id ≢ h.id
      → v.host ≡ get_escape_string r (codes "host")
      → get_escape_string r (codes "location") ≡ v.location
      → get_escape_string r (codes "scheme") ≡ v.scheme
      → clashes (edited r c h) v ≡ true
  clashes-edited r h v c differ name location scheme = ground (
    arith,
    ==_iff v.id h.id,
    ==_iff v.host (get_escape_string r (codes "host")),
    ==_iff (get_escape_string r (codes "location")) v.location,
    ==_iff v.scheme (get_escape_string r (codes "scheme")),
  )

  -- An edit that keeps the name of a host is not compared with the other hosts: if it sets the location
  -- and the scheme to those of another host with the name, and the location is not empty, it is answered
  -- with success, and the table then has two hosts for the route, of which NewHost refuses the edited one.
  pub edit_host-IsDouble :
      (r : Request) (db : JsonDb) (h v : Host) (c : Client)
      → r.is_get ≡ false
      → load (get_int_no_err r (codes "id")) db.hosts ≡ some h
      → h.id ≡ get_int_no_err r (codes "id")
      → h.host ≡ get_escape_string r (codes "host")
      → load (get_int_no_err r (codes "client_id")) db.clients ≡ some c
      → load v.id db.hosts ≡ some v
      → v.id ≢ h.id
      → v.host ≡ h.host
      → (v.location == []) ≡ false
      → get_escape_string r (codes "location") ≡ v.location
      → get_escape_string r (codes "scheme") ≡ v.scheme
      → ((edit_host codec r db).1 ≡ ok)
        × IsDouble codec (get_int_no_err r (codes "id")) (edit_host codec r db).0
  unfolding store_hosts_to_json_file
  edit_host-IsDouble r db h v c posted at own name owner other differ same_name given same_location
        same_scheme =
      let id = get_int_no_err r (codes "id") in
      let db' =
        store_hosts_to_json_file codec (record db { hosts = store id (edited r c h) db.hosts }) in
      let still : load v.id db'.hosts ≡ some v =
        load-store id v.id (edited r c h) db.hosts
        ∙ ground (arith, ==_iff id v.id, own, differ, other) in
      let taken = clashes-edited r h v c differ (same_name ∙ name) same_location same_scheme in
      rw (edit_host-edited r db h c posted at name owner) (
        refl,
        (
          edited r c h,
          v,
          load-store id id (edited r c h) db.hosts ∙ ground (arith, ==_refl id),
          still,
          taken,
          new_host-clashes codec (edited r c h) v db' (ap (λ t. t == []) same_location ∙ given)
              still taken,
        ),
      )
