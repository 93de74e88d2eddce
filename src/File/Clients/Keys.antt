-- ===== src/File/Clients/Keys.antt =====
-- lib/file/db.go: no two clients share a verify key, however they are added.
use nps_socks.File.Obj.{Client}
use nps_socks.SyncMap.{
  Keyed, Distinct, load, any-values-load, store, store-Keyed, store-Distinct, load-store, id-load,
}
use mathlib.Core.Path.{subst₂}
use nps_socks.Prelude.{
  inl, inr, ◌∙◌, arith, Text, ℤ, ◌≡◌, ◌≢◌, pos, true, none, some, ◌≤ℤ◌, ◌==◌, ◌&&◌, not, arith,
  ==_iff, int_eq, text_eq, refl, List, neg_part, ◌∷◌, pos_part, Bool-cases, ◌+◌, ◌<◌, ◌^◌, ◌+ℤ◌, ap,
  [], wrap32, Option, if◌then◌else◌,
}
use nps_socks.File.JsonDb.{JsonDb, Codec, store_clients_to_json_file, get_client_id}
use nps_socks.File.Clients.{
  added, verify_vkey, with_rate, with_new_key, new_client, finish, put_client, flow_or_new,
  verify_user_name, finish_key,
}

-- The table of clients as the program keeps it.
pub record IsSound (s : JsonDb) : Type 0 where
  pub keyed : Keyed (λ c. c.id) s.clients
  pub distinct : Distinct s.clients
  pub no_zero : load (pos 0) s.clients ≡ none
  pub below : (k : ℤ) (c : Client) → load k s.clients ≡ some c → k ≤ℤ s.client_increase_id
  pub unique :
      (i j : ℤ) (c d : Client)
      → load i s.clients ≡ some c
      → load j s.clients ≡ some d
      → c.verify_key ≡ d.verify_key
      → i ≡ j

-- A verified key belongs to no client of another id.
pub verify_vkey-other :
    (vkey : Text) (id k : ℤ) (v : Client) (s : JsonDb)
    → Keyed (λ c. c.id) s.clients
    → verify_vkey vkey id s ≡ true
    → load k s.clients ≡ some v
    → v.verify_key ≡ vkey
    → k ≡ id
unfolding verify_vkey
verify_vkey-other vkey id k v s keyed ok at same =
    let p = any-values-load (λ v. v.verify_key == vkey && not (v.id == id)) k v s.clients in
    ground (
      arith,
      p,
      id-load (λ c. c.id) k v s.clients keyed at,
      ==_iff v.verify_key vkey,
      ==_iff v.id id,
    )

module _ (codec : Codec) where
  -- Storing a client under an id whose key was verified.
  pub put_client-IsSound :
      (s : JsonDb) (c : Client)
      → IsSound s
      → c.id ≢ pos 0
      → c.id ≤ℤ s.client_increase_id
      → ((k : ℤ) (v : Client) → load k s.clients ≡ some v → v.verify_key ≡ c.verify_key → k ≡ c.id)
      → IsSound (store_clients_to_json_file codec (record s { clients = store c.id c s.clients }))
  unfolding store_clients_to_json_file
  put_client-IsSound s c h nz le free = record {
    keyed = store-Keyed (λ c. c.id) c.id c s.clients refl h.keyed;
    distinct = store-Distinct c.id c s.clients h.distinct;
    no_zero = rw load-store (ground (arith, h.no_zero, ==_iff c.id (pos 0)));
    below = λ k v at. ground (arith, load-store c.id k c s.clients, ==_iff c.id k, h.below k v);
    unique = λ i j v w p q e. ground (
      arith,
      load-store c.id i c s.clients,
      load-store c.id j c s.clients,
      ==_iff c.id i,
      ==_iff c.id j,
      h.unique i j v w,
      free i v,
      free j w,
    );
  }

-- No other client of the table has the key.
abbrev IsFree : JsonDb → Client → Type 0
IsFree s c =
    (k : ℤ) (v : Client) → load k s.clients ≡ some v → v.verify_key ≡ c.verify_key → k ≡ c.id

with_rate_same :
    (c : Client) → ((with_rate c).id ≡ c.id) × ((with_rate c).verify_key ≡ c.verify_key)
unfolding with_rate
with_rate_same c = ground arith

-- The loop ends with a key that was verified.
with_new_key-verified :
    (s : JsonDb) (ks : List Text) (c : Client) (c' : Client)
    → with_new_key s ks c ≡ some c'
    → (verify_vkey c'.verify_key c'.id s ≡ true) × (c'.id ≡ c.id)
unfolding with_new_key
with_new_key-verified s [] c c' h = absurd (ground arith)
with_new_key-verified s (k ∷ ks) c c' h =
    let next = with_rate (record c { verify_key = k }) in
    let (i, e) = with_rate_same (record c { verify_key = k }) in
    elim (Bool-cases (verify_vkey k c.id s)) [
      | inl ok ↦ ground (arith, i, e)
      | inr taken ↦
          let (p, q) = with_new_key-verified s ks next c' (ground arith) in (p, ground (arith, i))
    ]

-- An id that the counter has given out, or 0 for none yet.
abbrev pub HasId : Client → JsonDb → Type 0
HasId c s = (c.id ≢ pos 0) → c.id ≤ℤ s.client_increase_id

-- The counter can go up by one.
abbrev pub CanCount : ℤ → Type 0
CanCount id = (neg_part id ≡ 0) × (pos_part id + 1 < 2 ^ 31)

counted :
    (s : JsonDb)
    → CanCount s.client_increase_id
    → ((get_client_id s).0.client_increase_id ≡ pos (pos_part s.client_increase_id + 1))
      × ((get_client_id s).1 ≡ pos (pos_part s.client_increase_id + 1))
unfolding get_client_id wrap32 ◌+ℤ◌
counted s can = ground arith

get_client_id-IsSound :
    (s : JsonDb) → CanCount s.client_increase_id → IsSound s → IsSound (get_client_id s).0
unfolding get_client_id
get_client_id-IsSound s can h = record {
  keyed = h.keyed;
  distinct = h.distinct;
  no_zero = h.no_zero;
  below = λ k v at. let le = h.below k v at in let (p, q) = counted s can in ground (arith, p, le);
  unique = h.unique;
}

clients-get_client_id : (s : JsonDb) → (get_client_id s).0.clients ≡ s.clients
unfolding get_client_id
clients-get_client_id s = refl

module _ (codec : Codec) where
  -- What adding a client does to the table.
  pub record Adds (s : JsonDb) (c : Client) (s' : JsonDb) : Type 0 where
    pub sound : IsSound s'
    pub entry : (k : ℤ) → load k s'.clients ≡ (if c.id == k then some c else load k s.clients)

  Adds-added :
      (s x : JsonDb) (d c' : Client) (s' : JsonDb)
      → Adds s d x
      → added x d ≡ added s' c'
      → Adds s c' s'
  Adds-added s x d c' s' a e =
      let p : x ≡ s' = cc in let q : d ≡ c' = cc in subst₂ (λ t b. Adds s b t) p q a

  put_client-Adds :
      (s : JsonDb) (c c' : Client) (s' : JsonDb)
      → IsSound s
      → c.id ≢ pos 0
      → c.id ≤ℤ s.client_increase_id
      → IsFree s c
      → put_client codec s c ≡ added s' c'
      → Adds s c' s'
  put_client-Adds s c c' s' h nz le free e =
      let d = record c { flow = some (flow_or_new c.flow) } in
      let x = store_clients_to_json_file codec (record s { clients = store d.id d s.clients }) in
      Adds-added s x d c' s'
        (record {
          sound = put_client-IsSound codec s d h nz le free;
          entry = λ k. unfold store_clients_to_json_file in load-store d.id k d s.clients;
        })
        e

  finish-Adds :
      (s : JsonDb) (c c' : Client) (s' : JsonDb)
      → IsSound s
      → HasId c s
      → CanCount s.client_increase_id
      → IsFree s c
      → finish codec s c ≡ added s' c'
      → Adds s c' s'
  finish-Adds s c c' s' h has can free e = elim (Bool-cases (c.id == pos 0)) [
    | inl unset ↦
        let (s₁, id) = get_client_id s in
        let (p, q) = counted s can in
        let same = clients-get_client_id s in
        let a =
          put_client-Adds s₁ (record c { id = id }) c' s' (get_client_id-IsSound s can h)
            (λ z. ground (arith, q)) (ground (arith, p, q))
            (λ k v at e. ground (arith, same, free k v, h.no_zero, ==_iff c.id (pos 0)))
            (rw unset at e) in
        record {
          sound = a.sound;
          entry = λ k. a.entry k ∙ ap (λ t. if c'.id == k then some c' else load k t) same;
        }
    | inr set ↦
        put_client-Adds s c c' s' h (λ z. ground (arith, ==_iff c.id (pos 0)))
          (has (λ z. ground (arith, ==_iff c.id (pos 0)))) free (rw set at e)
  ]

  finish_key-Adds :
      (s : JsonDb) (c c' : Client) (o : Option Client) (s' : JsonDb)
      → IsSound s
      → HasId c s
      → CanCount s.client_increase_id
      → ((d : Client) → o ≡ some d → (verify_vkey d.verify_key d.id s ≡ true) × (d.id ≡ c.id))
      → finish_key codec s o ≡ added s' c'
      → Adds s c' s'
  finish_key-Adds s c c' none s' h has can verified e = absurd (ground arith)
  finish_key-Adds s c c' (some d) s' h has can verified e =
      let (ok, same) = verified d refl in
      finish-Adds s d c' s' h (λ nz. rw same (has (λ z. nz (same ∙ z)))) can
        (λ k v at q. verify_vkey-other d.verify_key d.id k v s h.keyed ok at q) e

  -- Adding a client, with a key of its own or a generated one, keeps the table sound: every client
  -- under its id, ids that the counter has given out, and no verify key twice. The client is stored
  -- under its id, and no other entry changes. The client has an id that the counter has given out,
  -- or 0, and the counter is not at its end.
  pub new_client-Adds :
      (random : List Text) (c : Client) (s : JsonDb) (c' : Client) (s' : JsonDb)
      → IsSound s
      → HasId c s
      → CanCount s.client_increase_id
      → new_client codec random c s ≡ added s' c'
      → Adds s c' s'
  unfolding new_client
  new_client-Adds random c s c' s' h has can e =
      elim (Bool-cases
        (not (c.web_user_name == []) && not (verify_user_name c.web_user_name c.id s))) [
          | inl dup ↦ absurd (cc (rw dup at e))
          | inr fine ↦ elim (Bool-cases (c.verify_key == [])) [
            | inl empty ↦
                finish_key-Adds s c c' (with_new_key s random c) s' h has can
                  (with_new_key-verified s random c) (rw (fine, empty) at e)
            | inr given ↦ elim (Bool-cases (verify_vkey c.verify_key c.id s)) [
              | inl ok ↦
                  finish_key-Adds s c c' (some (with_rate c)) s' h has can
                    (λ d q. let (i, k) = with_rate_same c in ground (arith, i, k, ok))
                    (rw (fine, given, ok) at e)
              | inr taken ↦ absurd (cc (rw (fine, given, taken) at e))
            ]
          ]
        ]
