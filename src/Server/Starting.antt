-- ===== src/Server/Starting.antt =====
-- server/server.go: when AddTask returns. It calls itself through NewMode and InitFromCsv.
pub mod Loop
use nps_socks.File.Clients.Tables.{KeepsTables, new_client-KeepsTables}
use nps_socks.File.Obj.{Client, Tunnel, make_client}
use nps_socks.Prelude.{
  Option, some, ◌≡◌, List, none, Text, Bool-cases, ℤ, not, ◌==◌, [], ◌&&◌, ◌∷◌, inl, inr, true,
  text_eq, refl, subst, ℕ, suc, Option-cases, pos, zero, ◌∙◌, false, All, Bool, sym, ==_iff, ◌⊎◌,
  if◌then◌else◌, beq_text, arith, int_eq,
}
use nps_socks.SyncMap.{Table, values, store, load, load-store}
use nps_socks.File.JsonDb.{JsonDb, Codec, get_client_id, store_clients_to_json_file}
use nps_socks.File.Clients.{refused, no_more_keys, Added, new_client, added}
use nps_socks.Server.{
  Server, add_task, with_public, Env, add_public, Adds, state_of, add_each, init_from_csv, Service,
  new_mode, stored, is_secret_mode, port_opens, http_host_server, web_server_mode, plain_service,
  web_server,
}

with_public-tasks :
    (a : Added) (s : Server) → KeepsTables s.db a → (with_public a s).db.tasks ≡ s.db.tasks
with_public-tasks (added db c) s h = h.0
with_public-tasks (refused r) s h = refl
with_public-tasks no_more_keys s h = refl

-- The table of tunnels is that of the state before, when the fuel did not end.
abbrev pub Keeps : Table Tunnel → Option Server → Type 0
Keeps ts none = Unit
Keeps ts (some s) = s.db.tasks ≡ ts

-- Nothing but the task of the id is new to what runs, and the database is the same.
pub record Starts (id : ℤ) (s s' : Server) : Type 0 where
  pub db : s'.db ≡ s.db
  pub only :
      (k : ℤ) (v : Option Service)
      → load k s'.run_list ≡ some v
      → (id ≡ k) ⊎ (load k s.run_list ≡ some v)

same-Starts : (id : ℤ) (s : Server) → Starts id s s
same-Starts id s = record { db = refl; only = λ k v at. inr at }

store-Starts :
    (id : ℤ) (v : Option Service) (s : Server)
    → Starts id s (record s { run_list = store id v s.run_list })
store-Starts id v s = record {
  db = refl;
  only = λ k w at. ground (arith, load-store id k v s.run_list, ==_iff id k, at);
}

module _ (codec : Codec) (e : Env) where
  pub add_public-tasks : (s : Server) → (add_public codec e s).db.tasks ≡ s.db.tasks
  unfolding add_public
  add_public-tasks s = elim (Bool-cases (e.public_vkey == [])) [
    | inl no_key ↦ rw (add_public, no_key) refl
    | inr key ↦
        rw (add_public, key)
          (with_public-tasks (new_client codec [] (make_client e.public_vkey true true) s.db) s
            (new_client-KeepsTables codec [] (make_client e.public_vkey true true) s.db))
  ]

  add_each-Keeps :
      (add : Adds) (ts : List Tunnel) (o : Option Server) (tasks : Table Tunnel)
      → ((id port : ℤ) (mode : Text) (s : Server)
          → Keeps s.db.tasks (state_of (add id port mode s)))
      → Keeps tasks o
      → Keeps tasks (add_each add ts o)
  add_each-Keeps add ts none tasks adds h = tt
  add_each-Keeps add [] (some s) tasks adds h = h
  add_each-Keeps add (t ∷ ts) (some s) tasks adds h = elim (Bool-cases t.status) [
    | inl running ↦ rw running (
        add_each-Keeps add ts (state_of (add t.id t.port t.mode s)) tasks adds (
          subst (λ m. Keeps m (state_of (add t.id t.port t.mode s))) h (adds t.id t.port t.mode s)))
    | inr stopped ↦ rw stopped (add_each-Keeps add ts (some s) tasks adds h)
  ]

  -- The tasks that InitFromCsv starts are those of the table.
  init_from_csv-Keeps :
      (add : Adds) (s : Server)
      → ((id port : ℤ) (mode : Text) (s : Server)
          → Keeps s.db.tasks (state_of (add id port mode s)))
      → Keeps s.db.tasks (init_from_csv codec e add s)
  unfolding init_from_csv
  init_from_csv-Keeps add s adds =
      add_each-Keeps add (values (add_public codec e s).db.tasks) (some (add_public codec e s))
        s.db.tasks adds (add_public-tasks s)

  stored-Keeps :
      (id : ℤ) (tasks : Table Tunnel) (s : Server) (svr : Option Service)
      → s.db.tasks ≡ tasks
      → Keeps tasks (state_of (stored codec e id (some (s, svr))))
  stored-Keeps id tasks s none h = h
  stored-Keeps id tasks s (some svr) h = h

  pub add_task-Keeps :
      (fuel : ℕ) (id port : ℤ) (mode : Text) (s : Server)
      → Keeps s.db.tasks (state_of (add_task codec e fuel id port mode s))
  unfolding add_task new_mode
  add_task-Keeps zero id port mode s = tt
  add_task-Keeps (suc fuel) id port mode s = elim (Bool-cases (is_secret_mode mode)) [
    | inl secret ↦ rw (add_task, secret) refl
    | inr public ↦
        elim (Bool-cases (not (port_opens codec e port mode) && not (mode == http_host_server))) [
          | inl taken ↦ rw (add_task, public, taken) refl
          | inr free ↦ elim (Bool-cases (mode == web_server_mode)) [
            | inr plain ↦
                rw (add_task, public, free, new_mode, plain)
                  (stored-Keeps id s.db.tasks s (plain_service mode) refl)
            | inl web ↦ elim (Option-cases (init_from_csv codec e (add_task codec e fuel) s)) [
              | inl ended ↦ rw (add_task, public, free, new_mode, web, ended) tt
              | inr (s₁, begun) ↦
                  elim (Option-cases (add_task codec e fuel (pos 0) (pos 0) http_host_server s₁)) [
                    | inl ended ↦ rw (add_task, public, free, new_mode, web, begun, ended) tt
                    | inr ((s₂, ok), up) ↦
                        let first =
                          subst (Keeps s.db.tasks) begun
                            (init_from_csv-Keeps (add_task codec e fuel) s (add_task-Keeps fuel)) in
                        let second =
                          subst (λ o. Keeps s₁.db.tasks (state_of o)) up
                            (add_task-Keeps fuel (pos 0) (pos 0) http_host_server s₁) in
                        rw (add_task, public, free, new_mode, web, begun, up) (second ∙ first)
                  ]
            ]
          ]
        ]
  ]

  -- A mode other than "webServer" is started at once, and only its task can be new to what runs.
  pub add_task-plain :
      (fuel : ℕ) (id port : ℤ) (mode : Text) (s : Server)
      → (mode == web_server_mode) ≡ false
      → (r : Server × Bool) × (add_task codec e (suc fuel) id port mode s ≡ some r)
        × Starts id s r.0
  unfolding add_task new_mode
  add_task-plain fuel id port mode s plain = elim (Bool-cases (is_secret_mode mode)) [
    | inl secret ↦ (
      (record s { run_list = store id none s.run_list }, true),
      rw secret refl,
      store-Starts id none s,
    )
    | inr public ↦
        elim (Bool-cases (not (port_opens codec e port mode) && not (mode == http_host_server))) [
          | inl taken ↦ ((s, false), rw (public, taken) refl, same-Starts id s)
          | inr free ↦ elim (Option-cases (plain_service mode)) [
            | inl unknown ↦ ((s, false), rw (public, free, plain, unknown) refl, same-Starts id s)
            | inr (svr, known) ↦ (
              (record s { run_list = store id (some svr) s.run_list }, true),
              rw (public, free, plain, known) refl,
              store-Starts id (some svr) s,
            )
          ]
        ]
  ]

  -- No task that is to run has the mode of the web interface.
  abbrev pub HasNoWebServer : List Tunnel → Type 0
  HasNoWebServer = All (λ v. v.status ≡ true → (v.mode == web_server_mode) ≡ false)

  add_each-plain :
      (fuel : ℕ) (ts : List Tunnel) (s : Server)
      → HasNoWebServer ts
      → (s' : Server) × (add_each (add_task codec e (suc fuel)) ts (some s) ≡ some s')
  add_each-plain fuel [] s h = (s, refl)
  add_each-plain fuel (t ∷ ts) s h = elim (Bool-cases t.status) [
    | inl running ↦
        let ((s₁, ok), up, starts) = add_task-plain fuel t.id t.port t.mode s (h.0 running) in
        let (s', more) = add_each-plain fuel ts s₁ h.1 in (s', rw (running, up) more)
    | inr stopped ↦ let (s', more) = add_each-plain fuel ts s h.1 in (s', rw stopped more)
  ]

  -- One call of AddTask for the mode "webServer".
  add_task-web :
      (fuel : ℕ) (id port : ℤ) (s : Server)
      → add_task codec e (suc fuel) id port web_server_mode s ≡ (
          if port_opens codec e port web_server_mode
          then stored codec e id (new_mode codec e (add_task codec e fuel) web_server_mode s)
          else some (s, false))
  unfolding add_task beq_text
  add_task-web fuel id port s = elim (Bool-cases (port_opens codec e port web_server_mode)) [
    | inl free ↦ rw free refl
    | inr taken ↦ rw taken refl
  ]

  new_mode-web :
      (fuel : ℕ) (s : Server)
      → HasNoWebServer (values s.db.tasks)
      → (r : Server × Option Service) × (new_mode codec e
            (add_task codec e (suc fuel))
            web_server_mode
            s
          ≡ some r)
  unfolding new_mode init_from_csv beq_text
  new_mode-web fuel s h =
      let (s₁, begun) =
        add_each-plain fuel (values (add_public codec e s).db.tasks) (add_public codec e s)
          (subst (λ m. HasNoWebServer (values m)) (sym (add_public-tasks s)) h) in
      let ((s₂, ok), up, starts) = add_task-plain fuel (pos 0) (pos 0) http_host_server s₁ refl in
      ((s₂, some web_server), rw (begun, up) refl)

  stored_returns :
      (id : ℤ) (made : Server × Option Service)
      → (r : Server × Bool) × (stored codec e id (some made) ≡ some r)
  stored_returns id (s, none) = ((s, false), refl)
  stored_returns id (s, some svr) =
      ((record s { run_list = store id (some svr) s.run_list }, true), refl)

  -- AddTask returns, whatever task it is given, when no task of the table that is marked as running has
  -- the mode "webServer": two nested calls are enough.
  pub add_task_returns :
      (fuel : ℕ) (id port : ℤ) (mode : Text) (s : Server)
      → HasNoWebServer (values s.db.tasks)
      → (r : Server × Bool) × (add_task codec e (suc (suc fuel)) id port mode s ≡ some r)
  add_task_returns fuel id port mode s h = elim (Bool-cases (mode == web_server_mode)) [
    | inr plain ↦
        let (r, done, starts) = add_task-plain (suc fuel) id port mode s plain in (r, done)
    | inl web ↦
        let same = (==_iff mode web_server_mode).0 web in
        subst (λ m. (r : Server × Bool) × (add_task codec e (suc (suc fuel)) id port m s ≡ some r))
          (sym same)
          (elim (Bool-cases (port_opens codec e port web_server_mode)) [
            | inr taken ↦ ((s, false), add_task-web (suc fuel) id port s ∙ rw taken)
            | inl free ↦
                let (made, begun) = new_mode-web fuel s h in
                let (r, done) = stored_returns id made in
                (r, add_task-web (suc fuel) id port s ∙ rw (free, begun) done)
          ])
  ]
