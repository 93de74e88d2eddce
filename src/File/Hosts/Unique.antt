-- ===== src/File/Hosts/Unique.antt =====
-- lib/file/db.go, `NewHost`: a new host takes no route from another one.
use nps_socks.Prelude.{
  ℤ, ◌≡◌, false, none, some, any, arith, true, ◌⊎◌, ==_iff, int_eq, text_eq, Bool-cases, inl, inr,
  refl, if◌then◌else◌, ◌==◌,
}
use nps_socks.SyncMap.{
  Keyed, Distinct, load, any-values-load, values, id-load, store, load-store, store-Keyed,
  store-Distinct,
}
use nps_socks.File.Obj.{Host, empty_flow}
use nps_socks.File.JsonDb.{JsonDb, store_hosts_to_json_file, Codec}
use nps_socks.File.Hosts.{new_host, clashes, is_host_exist, located}

-- The table of hosts as NewHost keeps it: two entries for one host and location differ in scheme.
pub record IsSound (s : JsonDb) : Type 0 where
  pub keyed : Keyed (λ h. h.id) s.hosts
  pub distinct : Distinct s.hosts
  pub apart :
      (i j : ℤ) (a b : Host)
      → load i s.hosts ≡ some a
      → load j s.hosts ≡ some b
      → a.host ≡ b.host
      → a.location ≡ b.location
      → a.scheme ≡ b.scheme
      → i ≡ j

no_clash-load :
    (t : Host) (k : ℤ) (v : Host) (s : JsonDb)
    → IsSound s
    → is_host_exist t s ≡ false
    → load k s.hosts ≡ some v
    → v.host ≡ t.host
    → v.location ≡ t.location
    → v.scheme ≡ t.scheme
    → k ≡ t.id
unfolding is_host_exist
no_clash-load t k v s sound h at p q r =
    let free = any-values-load (clashes t) k v s.hosts h at in
    ground (
      arith,
      free,
      id-load (λ h. h.id) k v s.hosts sound.keyed at,
      ==_iff v.id t.id,
      ==_iff v.host t.host,
      ==_iff t.location v.location,
      ==_iff v.scheme t.scheme,
    )

-- Storing a host that clashes with no other keeps the schemes apart.
apart_after :
    (t : Host) (s : JsonDb)
    → IsSound s
    → ((k : ℤ) (v : Host)
        → load k s.hosts ≡ some v
        → v.host ≡ t.host
        → v.location ≡ t.location
        → v.scheme ≡ t.scheme
        → k ≡ t.id)
    → (i j : ℤ) (a b : Host)
    → load i (store t.id (record t { flow = some empty_flow }) s.hosts) ≡ some a
    → load j (store t.id (record t { flow = some empty_flow }) s.hosts) ≡ some b
    → a.host ≡ b.host
    → a.location ≡ b.location
    → a.scheme ≡ b.scheme
    → i ≡ j
apart_after t s h other i j a b p q e f g =
    let u = record t { flow = some empty_flow } in
    ground (
      arith,
      load-store t.id i u s.hosts,
      load-store t.id j u s.hosts,
      ==_iff t.id i,
      ==_iff t.id j,
      h.apart i j a b,
      other i a,
      other j b,
    )

-- `NewHost` either fails, because another entry has the host, the location (the root if none is
-- given) and a scheme that covers the new one, or stores the host with a new flow under its id,
-- changes no other entry, and keeps entries for one host and location apart by their schemes.
pub new_host-IsSound :
    (codec : Codec) (t : Host) (s : JsonDb)
    → IsSound s
    → ((new_host codec t s ≡ none) × (any (clashes (located t)) (values s.hosts) ≡ true))
      ⊎ ((s' : JsonDb) × (new_host codec t s ≡ some s')
          × IsSound s'
          × ((k : ℤ)
              → load k s'.hosts ≡ (
                  if (located t).id == k
                  then some (record (located t) { flow = some empty_flow })
                  else load k s.hosts)))
unfolding new_host store_hosts_to_json_file
new_host-IsSound codec t s h =
    let t' = located t in
    elim (Bool-cases (is_host_exist t' s)) [
      | inl taken ↦ inl (rw taken, unfold is_host_exist in taken)
      | inr free ↦
          let u = record t' { flow = some empty_flow } in
          let other =
            λ (k : ℤ) (v : Host) (at : load k s.hosts ≡ some v). no_clash-load t' k v s h free at in
          inr (
            store_hosts_to_json_file codec (record s { hosts = store t'.id u s.hosts }),
            rw free,
            record {
              keyed = store-Keyed (λ v. v.id) t'.id u s.hosts refl h.keyed;
              distinct = store-Distinct t'.id u s.hosts h.distinct;
              apart = apart_after t' s h other;
            },
            λ k. load-store t'.id k u s.hosts,
          )
    ]
