-- ===== src/Server/Booting.antt =====
-- server/server.go: what runs when the program starts, `InitFromCsv` and the services of id 0.
use nps_socks.Server.Starting.{Starts, add_task-plain, add_public-tasks}
use nps_socks.Server.Consistent.{IsConsistent}
use nps_socks.Server.{
  Server, Env, Service, add_task, add_each, add_public, with_public, init_from_csv, new_mode,
  web_server_mode, http_host_server,
}
use nps_socks.File.Clients.{Added, added, refused, no_more_keys, new_client}
use nps_socks.File.Clients.Tables.{KeepsTables, new_client-KeepsTables}
use nps_socks.File.Obj.{Tunnel, make_client}
use nps_socks.File.JsonDb.{Codec, JsonDb}
use nps_socks.Common.Arrays.{in_int_arr}
use nps_socks.SyncMap.{load, store, load-store, Table, values, Keyed, Distinct}
use nps_socks.Prelude.{
  ℤ, ℕ, Text, Bool, Option, List, All, pos, some, none, true, false, zero, suc, ◌≡◌, refl, sym, ap,
  ◌∙◌, subst, ◌==◌, ==_iff, ==_refl, int_eq, text_eq, arith, inl, inr, some_inj, Option-cases,
  Bool-cases, [], ◌∷◌, beq_text,
}

-- The id that InitFromCsv puts into the run list for the client of `public_vkey`.
abbrev public_id : Added → ℤ
public_id (added db c) = c.id
public_id (refused why) = pos 0
public_id no_more_keys = pos 0

-- When the program starts: the table of tunnels holds each id once and every tunnel under its id, no tunnel
-- is the web interface, and 0 and the id of the public client are among the others.
pub record Boots (codec : Codec) (e : Env) (others : List ℤ) (s : Server) : Type 0 where
  pub keyed : Keyed (λ (t : Tunnel). t.id) s.db.tasks
  pub distinct : Distinct s.db.tasks
  pub plain : All (λ (t : Tunnel). (t.mode == web_server_mode) ≡ false) (values s.db.tasks)
  pub zero_other : in_int_arr others (pos 0) ≡ true
  pub public_other :
      in_int_arr others (public_id (new_client codec [] (make_client e.public_vkey true true) s.db))
      ≡ true

-- A tunnel of the table that is not the web interface.
abbrev Row : Table Tunnel → Tunnel → Type 0
Row m t = (load t.id m ≡ some t) × ((t.mode == web_server_mode) ≡ false)

Row-later :
    (k : ℤ) (w : Tunnel) (m : Table Tunnel) (ts : List Tunnel)
    → load k m ≡ none
    → All (Row m) ts
    → All (Row ((k, w) ∷ m)) ts
unfolding load
Row-later k w m [] new h = h
Row-later k w m (t ∷ ts) new ((at, plain), hs) =
    ((ground (arith, new, at, ==_iff k t.id), plain), Row-later k w m ts new hs)

Row-values :
    (m : Table Tunnel)
    → Keyed (λ (t : Tunnel). t.id) m
    → Distinct m
    → All (λ (t : Tunnel). (t.mode == web_server_mode) ≡ false) (values m)
    → All (Row m) (values m)
unfolding load
Row-values [] keyed distinct plain = tt
Row-values ((k, t) ∷ m) (same, keyed) (new, distinct) (p, plain) = (
  (ground (arith, ==_iff k t.id, same), p),
  Row-later k t m (values m) new (Row-values m keyed distinct plain),
)

never : {P A : Type 0} (a : A) → none ≡ some a → P
never a e = absurd (ground (arith, e))

module _ (codec : Codec) (others : List ℤ) where
  -- A task of the table with the status true may start.
  pub Starts-IsConsistent :
      (t : Tunnel) (id : ℤ) (s s' : Server)
      → Starts id s s'
      → load id s.db.tasks ≡ some t
      → t.status ≡ true
      → IsConsistent others s
      → IsConsistent others s'
  Starts-IsConsistent t id s s' h at up c = record {
    ids = λ k u was. c.ids k u (ap (λ d. load k d.tasks) (sym h.db) ∙ was);
    runs = λ k v task runs. elim (h.only k v runs) [
      | inl same ↦ (t, ap (λ d. load k d.tasks) h.db ∙ rw (← same) at, up)
      | inr before ↦
          let (u, was, on) = c.runs k v task before in (u, ap (λ d. load k d.tasks) h.db ∙ was, on)
    ];
  }

  pub add_task-Starts :
      (e : Env) (fuel : ℕ) (id port : ℤ) (mode : Text) (s s' : Server) (ok : Bool)
      → (mode == web_server_mode) ≡ false
      → add_task codec e fuel id port mode s ≡ some (s', ok)
      → Starts id s s'
  add_task-Starts e zero id port mode s s' ok plain done =
      absurd (unfold add_task in ground (arith, done))
  add_task-Starts e (suc fuel) id port mode s s' ok plain done =
      let (r, same, starts) = add_task-plain codec e fuel id port mode s plain in
      subst (λ x. Starts id s x.0) (some_inj (sym same ∙ done)) starts

  -- InitFromCsv starts the tasks that are marked as running.
  add_each-IsConsistent :
      (e : Env) (fuel : ℕ) (ts : List Tunnel) (s s' : Server)
      → All (Row s.db.tasks) ts
      → add_each (add_task codec e fuel) ts (some s) ≡ some s'
      → IsConsistent others s
      → IsConsistent others s'
  add_each-IsConsistent e fuel [] s s' rows done c = subst (IsConsistent others) (some_inj done) c
  add_each-IsConsistent e fuel (t ∷ ts) s s' ((at, plain), rows) done c =
      elim (Bool-cases t.status) [
        | inr stopped ↦ add_each-IsConsistent e fuel ts s s' rows (rw stopped at done) c
        | inl up ↦ elim (Option-cases (add_task codec e fuel t.id t.port t.mode s)) [
          | inl ended ↦ absurd (ground (arith, rw (up, ended) at done))
          | inr ((s₁, ok), began) ↦
              let h = add_task-Starts e fuel t.id t.port t.mode s s₁ ok plain began in
              add_each-IsConsistent e fuel ts s₁ s'
                (subst (λ db. All (Row db.tasks) ts) (sym h.db) rows) (rw (up, began) at done)
                (Starts-IsConsistent t t.id s s₁ h at up c)
        ]
      ]

  -- An entry for another id than those of tasks.
  store-IsConsistent :
      (id : ℤ) (v : Option Service) (s : Server)
      → in_int_arr others id ≡ true
      → IsConsistent others s
      → IsConsistent others (record s { run_list = store id v s.run_list })
  store-IsConsistent id v s other c = record {
    ids = c.ids;
    runs = λ k w task runs.
        c.runs k w task
          (ground (arith, load-store id k v s.run_list, ==_iff id k, other, task, runs));
  }

  db-IsConsistent :
      (s : Server) (db : JsonDb)
      → db.tasks ≡ s.db.tasks
      → IsConsistent others s
      → IsConsistent others (record s { db = db })
  db-IsConsistent s db same c = record {
    ids = λ k t at. c.ids k t (ap (load k) (sym same) ∙ at);
    runs =
        λ k v task runs. let (t, at, up) = c.runs k v task runs in (t, ap (load k) same ∙ at, up);
  }

  with_public-IsConsistent :
      (a : Added) (s : Server)
      → KeepsTables s.db a
      → in_int_arr others (public_id a) ≡ true
      → IsConsistent others s
      → IsConsistent others (with_public a s)
  with_public-IsConsistent (added db c) s keeps other h =
      store-IsConsistent c.id none (record s { db = db }) other (db-IsConsistent s db keeps.0 h)
  with_public-IsConsistent (refused why) s keeps other h = store-IsConsistent (pos 0) none s other h
  with_public-IsConsistent no_more_keys s keeps other h = h

  add_public-IsConsistent :
      (e : Env) (s : Server)
      → Boots codec e others s
      → IsConsistent others s
      → IsConsistent others (add_public codec e s)
  unfolding add_public
  add_public-IsConsistent e s b h = elim (Bool-cases (e.public_vkey == [])) [
    | inl no_key ↦ rw (add_public, no_key) h
    | inr key ↦
        let a = new_client codec [] (make_client e.public_vkey true true) s.db in
        rw (add_public, key)
          (with_public-IsConsistent a s
            (new_client-KeepsTables codec [] (make_client e.public_vkey true true) s.db)
            b.public_other h)
  ]

  init_from_csv-IsConsistent :
      (e : Env) (fuel : ℕ) (s s' : Server)
      → Boots codec e others s
      → init_from_csv codec e (add_task codec e fuel) s ≡ some s'
      → IsConsistent others s
      → IsConsistent others s'
  unfolding init_from_csv
  init_from_csv-IsConsistent e fuel s s' b done h =
      let s₀ = add_public codec e s in
      let rows =
        subst (λ m. All (Row m) (values m)) (sym (add_public-tasks codec e s))
          (Row-values s.db.tasks b.keyed b.distinct b.plain) in
      add_each-IsConsistent e fuel (values s₀.db.tasks) s₀ s' rows done
        (add_public-IsConsistent e s b h)

  -- Nothing of the tasks changes when the HTTP host server starts under the id 0.
  Starts-other-IsConsistent :
      (id : ℤ) (s s' : Server)
      → in_int_arr others id ≡ true
      → Starts id s s'
      → IsConsistent others s
      → IsConsistent others s'
  Starts-other-IsConsistent id s s' other h c = record {
    ids = λ k t at. c.ids k t (ap (λ d. load k d.tasks) (sym h.db) ∙ at);
    runs = λ k v task runs. elim (h.only k v runs) [
      | inl same ↦ absurd (ground (arith, same, other, task))
      | inr before ↦
          let (t, at, up) = c.runs k v task before in (t, ap (λ d. load k d.tasks) h.db ∙ at, up)
    ];
  }

  -- The web interface, with what it starts, and its own entry.
  pub new_mode-IsConsistent :
      (e : Env) (fuel : ℕ) (s s' : Server) (svr : Option Service)
      → Boots codec e others s
      → new_mode codec e (add_task codec e fuel) web_server_mode s ≡ some (s', svr)
      → IsConsistent others s
      → IsConsistent others (record s' { run_list = store (pos 0) svr s'.run_list })
  unfolding new_mode
  new_mode-IsConsistent e fuel s s' svr b done c =
      elim (Option-cases (init_from_csv codec e (add_task codec e fuel) s)) [
        | inl ended ↦ never (s', svr) (rw (new_mode, ==_refl web_server_mode, ended) at done)
        | inr (s₁, begun) ↦
            elim (Option-cases (add_task codec e fuel (pos 0) (pos 0) http_host_server s₁)) [
              | inl ended ↦
                  never (s', svr) (rw (new_mode, ==_refl web_server_mode, begun, ended) at done)
              | inr ((s₂, ok), hosts) ↦
                  let h =
                    add_task-Starts e fuel (pos 0) (pos 0) http_host_server s₁ s₂ ok
                      (unfold beq_text in refl) hosts in
                  let c₂ =
                    Starts-other-IsConsistent (pos 0) s₁ s₂ b.zero_other h
                      (init_from_csv-IsConsistent e fuel s s₁ b begun c) in
                  store-IsConsistent (pos 0) svr s' b.zero_other (
                    subst (λ r. IsConsistent others r.0)
                      (some_inj (rw (new_mode, ==_refl web_server_mode, begun, hosts) at done)) c₂)
            ]
      ]
