-- ===== src/File/Tasks/Secrets.antt =====
-- lib/file/db.go: the keys of secret tunnels are unique, and a visitor's key finds its tunnel.
use nps_socks.Prelude.{
  ℤ, any, ◌≡◌, ◌&&◌, none, some, ◌==◌, true, false, ◌⊎◌, ◌≢◌, Bool-cases, arith, inl, ==_iff, inr,
  text_eq, refl, int_eq, if◌then◌else◌, ap, sym, some_inj, ◌∙◌,
}
use nps_socks.SyncMap.{
  Keyed, Distinct, load, values, any-values-load, store, store-Keyed, store-Distinct, load-store,
}
use nps_socks.File.Obj.{Tunnel, empty_flow}
use nps_socks.File.JsonDb.{JsonDb, store_tasks_to_json_file, Codec}
use nps_socks.File.Tasks.{new_task, is_secret}

-- The table of tunnels as NewTask keeps it: no two secret tunnels have one password.
pub record IsSound (s : JsonDb) : Type 0 where
  pub keyed : Keyed (λ t. t.id) s.tasks
  pub distinct : Distinct s.tasks
  pub unique :
      (i j : ℤ) (a b : Tunnel)
      → load i s.tasks ≡ some a
      → load j s.tasks ≡ some b
      → is_secret a ≡ true
      → is_secret b ≡ true
      → a.password ≡ b.password
      → i ≡ j

no_secret-load :
    (t : Tunnel) (k : ℤ) (v : Tunnel) (s : JsonDb)
    → any (λ v. is_secret v && v.password == t.password) (values s.tasks) ≡ false
    → load k s.tasks ≡ some v
    → is_secret v ≡ true
    → v.password ≢ t.password
no_secret-load t k v s h at secret same =
    let p = any-values-load (λ v. is_secret v && v.password == t.password) k v s.tasks h at in
    ground (arith, p, ==_iff v.password t.password)

-- What NewTask leaves of the table when it does not fail.
pub new_task-load :
    (codec : Codec) (t : Tunnel) (s s' : JsonDb)
    → new_task codec t s ≡ some s'
    → (k : ℤ)
    → load k s'.tasks
      ≡ (if t.id == k then some (record t { flow = some empty_flow }) else load k s.tasks)
unfolding new_task store_tasks_to_json_file
new_task-load codec t s s' done k =
    elim (Bool-cases (any (λ v. is_secret v && v.password == t.password) (values s.tasks))) [
      | inl taken ↦ absurd (ground (arith, rw taken at done))
      | inr free ↦
          ap (λ d. load k d.tasks) (sym (some_inj (rw free at done)))
          ∙ load-store t.id k (record t { flow = some empty_flow }) s.tasks
    ]

pub new_task-IsSound :
    (codec : Codec) (t : Tunnel) (s : JsonDb)
    → IsSound s
    → ((new_task codec t s ≡ none)
        × (any (λ v. is_secret v && v.password == t.password) (values s.tasks) ≡ true))
      ⊎ ((s' : JsonDb) × (new_task codec t s ≡ some s')
          × IsSound s'
          × ((k : ℤ)
              → load k s'.tasks ≡ (
                  if t.id == k
                  then some (record t { flow = some empty_flow })
                  else load k s.tasks)))
unfolding new_task store_tasks_to_json_file
new_task-IsSound codec t s h =
    elim (Bool-cases (any (λ v. is_secret v && v.password == t.password) (values s.tasks))) [
      | inl taken ↦ inl (rw taken, taken)
      | inr free ↦
          let u = record t { flow = some empty_flow } in
          let no =
            λ (k : ℤ) (v : Tunnel) (at : load k s.tasks ≡ some v). no_secret-load t k v s free at in
          inr (
            store_tasks_to_json_file codec (record s { tasks = store t.id u s.tasks }),
            rw free,
            record {
              keyed = store-Keyed (λ v. v.id) t.id u s.tasks refl h.keyed;
              distinct = store-Distinct t.id u s.tasks h.distinct;
              unique = λ i j a b p q sa sb e. ground (
                arith,
                load-store t.id i u s.tasks,
                load-store t.id j u s.tasks,
                ==_iff t.id i,
                ==_iff t.id j,
                h.unique i j a b,
                no i a,
                no j b,
              );
            },
            λ k. load-store t.id k u s.tasks,
          )
    ]
