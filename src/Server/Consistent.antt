-- ===== src/Server/Consistent.antt =====
-- server/server.go: stopping and deleting tasks keeps what runs in the table. The run list holds more than
-- tasks: the web interface and the HTTP host server, whose id is 0, and the client of `public_vkey`.
use nps_socks.Common.Arrays.{in_int_arr}
use nps_socks.Server.Closing.{del_hosts-Without, without_client-Leaves}
use nps_socks.SyncMap.{load, values}
use nps_socks.File.Obj.{Tunnel, Host}
use nps_socks.File.JsonDb.{Codec}
use nps_socks.Prelude.{
  ℤ, Option, Option-cases, arith, ◌==◌, List, inl, ◌≡◌, subst, inr, some, false, ap, ◌∷◌, true, ◌∙◌,
  sym, [], int_eq, text_eq, map, select,
}
use nps_socks.Server.Stopping.{HasIds, stop_server_exact, Stopped, Removed, del_task_exact}
use nps_socks.Server.{
  del_task, Server, Env, Service, stop_server, del_tasks, del_tunnel_and_host_by_client_id,
  without_client, is_closed_with, del_hosts,
}

-- Every entry of the run list, but for the ids of `others`, is a task of the table, under its id and with
-- the status true.
pub record IsConsistent (others : List ℤ) (s : Server) : Type 0 where
  pub ids : HasIds s
  pub runs :
      (k : ℤ) (v : Option Service)
      → in_int_arr others k ≡ false
      → load k s.run_list ≡ some v
      → (t : Tunnel) × (load k s.db.tasks ≡ some t) × (t.status ≡ true)

module _ (codec : Codec) (others : List ℤ) where
  Stopped-IsConsistent :
      (id : ℤ) (s s' : Server) → Stopped id s s' → IsConsistent others s → IsConsistent others s'
  Stopped-IsConsistent id s s' h c = record {
    ids = λ k t at. elim (Option-cases (load k s.db.tasks)) [
      | inl absent ↦ absurd (ground (arith, h.tasks k, absent, at))
      | inr (u, was) ↦ ground (arith, h.tasks k, was, at, c.ids k u)
    ];
    runs = λ k v task runs.
        let other : (id == k) ≡ false = ground (arith, h.run_list k, runs) in
        let (t, at, up) = c.runs k v task (ground (arith, h.run_list k, other, runs)) in
        (t, h.tasks k ∙ rw other at, up);
  }

  Removed-IsConsistent :
      (id : ℤ) (s s' : Server) → Removed id s s' → IsConsistent others s → IsConsistent others s'
  Removed-IsConsistent id s s' h c = record {
    ids = λ k t at. ground (arith, h.tasks k, at, c.ids k t);
    runs = λ k v task runs.
        let other : (id == k) ≡ false = ground (arith, h.run_list k, runs) in
        let (t, at, up) = c.runs k v task (ground (arith, h.run_list k, other, runs)) in
        (t, h.tasks k ∙ rw other at, up);
  }

  pub stop_server-IsConsistent :
      (e : Env) (id : ℤ) (s : Server)
      → IsConsistent others s
      → IsConsistent others (stop_server codec e id s).0
  stop_server-IsConsistent e id s c = elim (stop_server_exact codec e id s c.ids) [
    | inl (why, same) ↦ subst (IsConsistent others) (ap (λ r. r.0) (sym same)) c
    | inr (able, ok, h) ↦ Stopped-IsConsistent id s (stop_server codec e id s).0 h c
  ]

  pub del_task-IsConsistent :
      (e : Env) (id : ℤ) (s : Server)
      → IsConsistent others s
      → IsConsistent others (del_task codec e id s).0
  del_task-IsConsistent e id s c = elim (del_task_exact codec e id s c.ids) [
    | inl (why, same) ↦ subst (IsConsistent others) (ap (λ r. r.0) (sym same)) c
    | inr (able, ok, h) ↦ Removed-IsConsistent id s (del_task codec e id s).0 h c
  ]

  del_tasks-IsConsistent :
      (e : Env) (ids : List ℤ) (s : Server)
      → IsConsistent others s
      → IsConsistent others (del_tasks codec e ids s)
  del_tasks-IsConsistent e [] s c = c
  del_tasks-IsConsistent e (id ∷ ids) s c =
      del_tasks-IsConsistent e ids (del_task codec e id s).0 (del_task-IsConsistent e id s c)

  Same-IsConsistent :
      (s s' : Server)
      → s'.db.tasks ≡ s.db.tasks
      → s'.run_list ≡ s.run_list
      → IsConsistent others s
      → IsConsistent others s'
  Same-IsConsistent s s' ts rs c = record {
    ids = λ k t at. c.ids k t (ap (load k) (sym ts) ∙ at);
    runs = λ k v task runs.
        let (t, at, up) = c.runs k v task (ap (load k) (sym rs) ∙ runs) in
        (t, ap (load k) ts ∙ at, up);
  }

  pub close_client-IsConsistent :
      (e : Env) (id : ℤ) (s : Server)
      → IsConsistent others s
      → IsConsistent others
          (without_client codec e id (del_tunnel_and_host_by_client_id codec e id true s))
  unfolding del_tunnel_and_host_by_client_id
  close_client-IsConsistent e id s c =
      let s₁ =
        del_tasks codec e
          (map (λ (v : Tunnel). v.id)
            (select (λ v. is_closed_with codec e id true v.no_store v.client.id)
              (values s.db.tasks)))
          s in
      let hosts =
        map (λ (h : Host). h.id)
          (select (λ v. is_closed_with codec e id true v.no_store v.client.id)
            (values s₁.db.hosts)) in
      let s₂ = record s₁ { db = del_hosts codec e hosts s₁.db } in
      let (hs, ts, cs) = del_hosts-Without codec e hosts s₁.db in
      let l = without_client-Leaves codec e id s₂ in
      Same-IsConsistent s₁ (without_client codec e id s₂) (l.tasks ∙ ts) l.run_list (
        del_tasks-IsConsistent e
          (map (λ (v : Tunnel). v.id)
            (select (λ v. is_closed_with codec e id true v.no_store v.client.id)
              (values s.db.tasks)))
          s c)
