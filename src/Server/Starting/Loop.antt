-- ===== src/Server/Starting/Loop.antt =====
-- server/server.go: a task that makes AddTask call itself for ever.
use nps_socks.SyncMap.{values}
use nps_socks.File.Obj.{Tunnel}
use nps_socks.Prelude.{
  List, ℕ, ◌∷◌, ◌≡◌, ℤ, true, false, beq_text, inl, ◌⊎◌, arith, none, [], inr, suc, some, subst,
  Bool-cases, sym, Option-cases, ◌∙◌, zero, refl,
}
use nps_socks.Server.{
  Env, new_mode, add_task, Server, init_from_csv, port_opens, web_server_mode, add_each, add_public,
  state_of,
}
use nps_socks.File.JsonDb.{Codec}
use nps_socks.Server.Starting.{add_task-web, Keeps, add_task-Keeps, add_public-tasks}

module _ (codec : Codec) (e : Env) where
  -- A running task of the list has the mode "webServer" and a port that may be listened on.
  abbrev pub HasWebServer : List Tunnel → Type 0
  HasWebServer [] = ⊥
  HasWebServer (t ∷ ts) =
      ((t.status ≡ true)
        × (t.mode ≡ web_server_mode)
        × (port_opens codec e t.port web_server_mode ≡ true))
      ⊎ HasWebServer ts

  later :
      (t : Tunnel) (ts : List Tunnel) → t.status ≡ false → HasWebServer (t ∷ ts) → HasWebServer ts
  later t ts stopped (inl (running, web, free)) = ground (arith, stopped, running)
  later t ts stopped (inr more) = more

  add_each_ends :
      (fuel : ℕ) (ts : List Tunnel) (s : Server)
      → HasWebServer ts
      → ((id port : ℤ) (s' : Server)
          → s'.db.tasks ≡ s.db.tasks
          → port_opens codec e port web_server_mode ≡ true
          → add_task codec e fuel id port web_server_mode s' ≡ none)
      → add_each (add_task codec e fuel) ts (some s) ≡ none
  add_each_ends fuel [] s h ends = absurd h
  add_each_ends fuel (t ∷ ts) s h ends = elim (Bool-cases t.status) [
    | inr stopped ↦ rw stopped (add_each_ends fuel ts s (later t ts stopped h) ends)
    | inl running ↦ elim h [
      | inl (r, web, free) ↦
          let none_here : add_task codec e fuel t.id t.port t.mode s ≡ none =
            rw web (ends t.id t.port s refl free) in
          rw (running, none_here) refl
      | inr more ↦ elim (Option-cases (state_of (add_task codec e fuel t.id t.port t.mode s))) [
        | inl ended ↦ rw (running, ended) refl
        | inr (s₁, up) ↦
            let same =
              subst (Keeps s.db.tasks) up (add_task-Keeps codec e fuel t.id t.port t.mode s) in
            rw (running, up)
              (add_each_ends fuel ts s₁ more (λ id port s' k free. ends id port s' (k ∙ same) free))
      ]
    ]
  ]

  new_mode_ends :
      (fuel : ℕ) (s : Server)
      → HasWebServer (values s.db.tasks)
      → ((id port : ℤ) (s' : Server)
          → s'.db.tasks ≡ s.db.tasks
          → port_opens codec e port web_server_mode ≡ true
          → add_task codec e fuel id port web_server_mode s' ≡ none)
      → new_mode codec e (add_task codec e fuel) web_server_mode s ≡ none
  unfolding new_mode init_from_csv beq_text
  new_mode_ends fuel s h ends =
      let ended =
        add_each_ends fuel (values (add_public codec e s).db.tasks) (add_public codec e s)
          (subst (λ m. HasWebServer (values m)) (sym (add_public-tasks codec e s)) h)
          (λ id port s' same. ends id port s' (same ∙ add_public-tasks codec e s)) in
      rw ended refl

  -- AddTask for the mode "webServer" never returns, whatever the fuel, when its port may be listened on
  -- and a task of the table that is marked as running has that mode and such a port: each call starts
  -- that task again.
  pub add_task_diverges :
      (fuel : ℕ) (id port : ℤ) (s : Server)
      → HasWebServer (values s.db.tasks)
      → port_opens codec e port web_server_mode ≡ true
      → add_task codec e fuel id port web_server_mode s ≡ none
  unfolding add_task
  add_task_diverges zero id port s h free = refl
  add_task_diverges (suc fuel) id port s h free =
      let ended = new_mode_ends fuel s h (λ i p s' same.
        add_task_diverges fuel i p s' (subst (λ m. HasWebServer (values m)) (sym same) h)) in
      add_task-web codec e fuel id port s ∙ rw (free, ended) refl
