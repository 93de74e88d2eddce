-- ===== src/Web/Keys.antt =====
-- web/controllers/client.go: an edit of a client leaves the keys of the clients unique.
use nps_socks.Web.Clients.{
  edit, edit_found, edit_as, limited, saved, put_client, user_fields, admin_fields, name_is_taken,
}
use nps_socks.Web.Request.{Request, get_int_no_err, get_escape_string}
use nps_socks.Web.Tunnels.{Answer, err, page}
use nps_socks.File.Clients.Keys.{IsSound, verify_vkey-other, put_client-IsSound}
use nps_socks.File.Clients.{verify_vkey}
use nps_socks.File.JsonDb.{Codec, JsonDb, store_clients_to_json_file, get_client}
use nps_socks.File.Obj.{Client, Flow}
use nps_socks.SyncMap.{load, store, id-load, Keyed, Distinct}
use nps_socks.Prelude.{
  Text, Bool, Option, ℤ, codes, not, none, some, true, false, ◌≡◌, refl, pos, ◌≤ℤ◌, if◌then◌else◌,
  arith, ◌∙◌, sym, subst, ap, ◌||◌,
}

-- Being sound is about the table of clients and its counter.
IsSound-of :
    (db db' : JsonDb)
    → db.clients ≡ db'.clients
    → db.client_increase_id ≡ db'.client_increase_id
    → IsSound db
    → IsSound db'
IsSound-of db db' same count h = record {
  keyed = subst (Keyed (λ c. c.id)) same h.keyed;
  distinct = subst Distinct same h.distinct;
  no_zero = ap (load (pos 0)) (sym same) ∙ h.no_zero;
  below = λ k c at. subst (λ n. k ≤ℤ n) count (h.below k c (ap (load k) same ∙ at));
  unique = λ i j c d p q e. h.unique i j c d (ap (load i) same ∙ p) (ap (load j) same ∙ q) e;
}

-- No client of another id has the key of the client.
abbrev IsFree : ℤ → Client → JsonDb → Type 0
IsFree id c db =
    (k : ℤ) (v : Client) → load k db.clients ≡ some v → v.verify_key ≡ c.verify_key → k ≡ id

-- A write to a client that keeps its id, with a key that no other client has.
put_client-IsFree :
    (codec : Codec) (id : ℤ) (c c' : Client) (db : JsonDb)
    → IsSound db
    → load id db.clients ≡ some c
    → c'.id ≡ c.id
    → IsFree id c' db
    → IsSound (put_client id c' db)
unfolding store_clients_to_json_file
put_client-IsFree codec id c c' db h at same free =
    let own : c'.id ≡ id = same ∙ id-load (λ v. v.id) id c db.clients h.keyed at in
    let s =
      put_client-IsSound codec db c' h
        (λ e. ground (arith, h.no_zero, at, ap (λ k. load k db.clients) (sym own ∙ e)))
        (subst (λ k. k ≤ℤ db.client_increase_id) (sym own) (h.below id c at))
        (λ k v at' eq. free k v at' eq ∙ sym own) in
    let stored : store c'.id c' db.clients ≡ store id c' db.clients =
      ap (λ k. store k c' db.clients) own in
    IsSound-of
      (store_clients_to_json_file codec (record db { clients = store c'.id c' db.clients }))
      (put_client id c' db) stored refl s

module _ (codec : Codec) (admin_name : Text) (may_rename : Bool) where
  saved-IsSound :
      (r : Request) (id : ℤ) (is_admin : Bool) (c c' : Client) (db : JsonDb)
      → IsSound db
      → load id db.clients ≡ some c
      → c'.id ≡ c.id
      → IsFree id c' db
      → IsSound (saved codec admin_name may_rename r id is_admin c' db).0
  unfolding store_clients_to_json_file
  saved-IsSound r id is_admin c c' db h at same free =
      let c'' = user_fields r (is_admin || may_rename) c' in
      IsSound-of (put_client id c'' db) (saved codec admin_name may_rename r id is_admin c' db).0
        refl refl (put_client-IsFree codec id c c'' db h at same free)

  verified-IsFree :
      (key : Text) (id : ℤ) (c : Client) (db : JsonDb)
      → IsSound db
      → load id db.clients ≡ some c
      → verify_vkey key c.id db ≡ true
      → IsFree id (record c { verify_key = key }) db
  verified-IsFree key id c db h at verified k v at' eq =
      verify_vkey-other key c.id k v db h.keyed verified at' eq
      ∙ id-load (λ v. v.id) id c db.clients h.keyed at

  limited-IsSound :
      (r : Request) (id : ℤ) (c : Client) (db : JsonDb) (o : Option Flow)
      → IsSound db
      → load id db.clients ≡ some c
      → verify_vkey (get_escape_string r (codes "vkey")) c.id db ≡ true
      → IsSound (limited codec admin_name may_rename r id c db o).0
  limited-IsSound r id c db none h at verified =
      put_client-IsFree codec id c (record c { verify_key = get_escape_string r (codes "vkey") }) db
        h at refl (verified-IsFree (get_escape_string r (codes "vkey")) id c db h at verified)
  limited-IsSound r id c db (some f) h at verified =
      saved-IsSound r id true c (admin_fields r f c) db h at refl
        (verified-IsFree (get_escape_string r (codes "vkey")) id c db h at verified)

  if-IsSound :
      (b : Bool) (x y : JsonDb × Answer)
      → IsSound x.0
      → ((b ≡ false) → IsSound y.0)
      → IsSound (if b then x else y).0
  if-IsSound true x y h g = h
  if-IsSound false x y h g = g refl

  edit_as-IsSound :
      (is_admin : Option Bool) (r : Request) (id : ℤ) (c : Client) (db : JsonDb)
      → IsSound db
      → load id db.clients ≡ some c
      → IsSound (edit_as codec admin_name may_rename is_admin r id c db).0
  edit_as-IsSound none r id c db h at = h
  edit_as-IsSound (some true) r id c db h at =
      let key = get_escape_string r (codes "vkey") in
      if-IsSound (not (verify_vkey key c.id db)) (db, err)
        (limited codec admin_name may_rename r id c db c.flow) h
        (λ verified. limited-IsSound r id c db c.flow h at (ground (arith, verified)))
  edit_as-IsSound (some false) r id c db h at =
      saved-IsSound r id false c c db h at refl (λ k v at' eq. h.unique k id v c at' at eq)

  edit_found-IsSound :
      (is_admin : Option Bool) (r : Request) (id : ℤ) (db : JsonDb) (o : Option Client)
      → IsSound db
      → load id db.clients ≡ o
      → IsSound (edit_found codec admin_name may_rename is_admin r id db o).0
  edit_found-IsSound is_admin r id db none h at = h
  edit_found-IsSound is_admin r id db (some c) h at =
      if-IsSound
        (name_is_taken codec admin_name may_rename (get_escape_string r (codes "web_username")) c
          db)
        (db, err) (edit_as codec admin_name may_rename is_admin r id c db) h
        (λ free. edit_as-IsSound is_admin r id c db h at)

  -- Whoever posts it and whatever the form holds, an edit of a client keeps the table of clients sound:
  -- every client under its own id, no id twice, none under 0 or above the counter, and no two clients with
  -- one verify key.
  pub edit-IsSound :
      (is_admin : Option Bool) (r : Request) (db : JsonDb)
      → IsSound db
      → IsSound (edit codec admin_name may_rename is_admin r db).0
  unfolding edit get_client
  edit-IsSound is_admin r db h =
      let id = get_int_no_err r (codes "id") in
      if-IsSound r.is_get (db, page)
        (edit_found codec admin_name may_rename is_admin r id db (get_client id db)) h
        (λ posted. edit_found-IsSound is_admin r id db (get_client id db) h refl)
