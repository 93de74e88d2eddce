-- ===== src/File/Clients/Identity.antt =====
-- lib/file/db.go, `GetIdByVerifyKey`: who a connecting client is.
use nps_socks.File.JsonDb.{JsonDb}
use nps_socks.SyncMap.{load, Table, Keyed, Distinct, values}
use nps_socks.File.Obj.{Client}
use nps_socks.Prelude.{
  Text, ℤ, Bool, ◌≡◌, some, find, true, arith, none, false, Option-cases, ◌∷◌, Bool-cases, [], inl,
  ==_iff, ==_refl, inr, ap, int_eq, text_eq,
}
use nps_socks.File.Clients.{opens, get_id_by_verify_key}
use nps_socks.File.Clients.Keys.{IsSound}

-- MD5 tells this key from the others in the table.
pub record NoCollision (md5 : Text → Text) (c : Client) (s : JsonDb) : Type 0 where
  pub apart :
      (k : ℤ) (d : Client)
      → load k s.clients ≡ some d
      → md5 d.verify_key ≡ md5 c.verify_key
      → d.verify_key ≡ c.verify_key

-- What `find` returns stands in the table and passes the test.
find-load :
    (p : Client → Bool) (m : Table Client) (v : Client)
    → Keyed (λ c. c.id) m
    → Distinct m
    → find p (values m) ≡ some v
    → (load v.id m ≡ some v) × (p v ≡ true)
unfolding load
find-load p [] v h d e = absurd (ground arith)
find-load p ((j, w) ∷ m) v h d e = elim (Bool-cases (p w)) [
  | inl hit ↦ ground (arith, h.0, ==_iff j v.id)
  | inr miss ↦ ground (arith, find-load p m v h.1 d.1, d.0, ==_iff j v.id)
]

find-none :
    (p : Client → Bool) (k : ℤ) (m : Table Client) (v : Client)
    → find p (values m) ≡ none
    → load k m ≡ some v
    → p v ≡ false
unfolding load
find-none p k [] v e at = absurd (ground arith)
find-none p k ((j, w) ∷ m) v e at = ground (arith, find-none p k m v)

module _ (md5 : Text → Text) where
  -- A connection that shows the digest of an enabled client's key is that client, where the
  -- digest is no other key's: the id found is the client's.
  pub get_id_by_verify_key_self :
      (s : JsonDb) (k : ℤ) (c : Client) (addr : Text)
      → IsSound s
      → NoCollision md5 c s
      → load k s.clients ≡ some c
      → c.status ≡ true
      → (get_id_by_verify_key md5 (md5 c.verify_key) addr s).1 ≡ some k
  unfolding get_id_by_verify_key
  get_id_by_verify_key_self s k c addr h apart at enabled =
      let p = opens md5 (md5 c.verify_key) in
      elim (Option-cases (find p (values s.clients))) [
        | inl missed ↦ absurd (
            ground
              (arith, find-none p k s.clients c missed at, ==_refl (md5 c.verify_key), enabled))
        | inr (v, hit) ↦
            let (there, opened) = find-load p s.clients v h.keyed h.distinct hit in
            let same =
              apart.apart v.id v there
                (ground (arith, opened, ==_iff (md5 v.verify_key) (md5 c.verify_key))) in
            rw hit (ap some (h.unique v.id k v c there at same))
      ]

  -- The id that is found is that of an enabled client whose key has the digest shown.
  pub get_id_by_verify_key_sound :
      (s : JsonDb) (v_key addr : Text) (id : ℤ)
      → IsSound s
      → (get_id_by_verify_key md5 v_key addr s).1 ≡ some id
      → (c : Client) × (load id s.clients ≡ some c) × (c.status ≡ true) × (md5 c.verify_key ≡ v_key)
  unfolding get_id_by_verify_key
  get_id_by_verify_key_sound s v_key addr id h e =
      let p = opens md5 v_key in
      elim (Option-cases (find p (values s.clients))) [
        | inl missed ↦ absurd (cc (rw missed at e))
        | inr (v, hit) ↦
            let (there, opened) = find-load p s.clients v h.keyed h.distinct hit in
            let same : v.id ≡ id = cc (rw hit at e) in
            (
              v,
              rw (← same) there,
              ground (arith, opened),
              ground (arith, opened, ==_iff (md5 v.verify_key) v_key),
            )
      ]
