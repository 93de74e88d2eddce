-- ===== src/Web/Ownership.antt =====
-- web/controllers/index.go: what stopping, starting and writing a tunnel leaves alone.
use nps_socks.Web.Tunnels.{Reply, answer_of, answered, restarted}
use nps_socks.Server.Stopping.{
  HasIds, Changes, set_status, Stopped, stop_server_exact, del_task_exact, gone,
}
use nps_socks.Server.Starting.{Keeps, add_task-Keeps}
use nps_socks.Server.{
  Server, Env, Outcome, stop_server, start_task, add_task, del_task, marked_running, state_of,
}
use nps_socks.File.JsonDb.{Codec, store_tasks_to_json_file}
use nps_socks.File.Obj.{Tunnel}
use nps_socks.File.Tasks.{get_task, update_task}
use nps_socks.SyncMap.{Table, load, store, load-store}
use nps_socks.Prelude.{
  Option, Bool, ℤ, ℕ, List, Text, none, some, true, false, ◌≡◌, ◌≢◌, refl, sym, ◌∙◌, ap, subst,
  ◌==◌, ==_iff, int_eq, arith, inl, inr, Option-cases, Bool-cases,
}

-- Nothing but the entry of the id is changed.
abbrev pub OnlyAt : {V : Type 0} → ℤ → Table V → Table V → Type 0
OnlyAt id m m' = (k : ℤ) → k ≢ id → load k m' ≡ load k m

abbrev pub OnlyAtAnswer : ℤ → Table Tunnel → Reply → Type 0
OnlyAtAnswer id m none = Unit
OnlyAtAnswer id m (some (s, answer)) = OnlyAt id m s.db.tasks

pub store-OnlyAt :
    {V : Type 0} (id : ℤ) (v : V) (m m' : Table V) → OnlyAt id m m' → OnlyAt id m (store id v m')
store-OnlyAt id v m m' h k ne = load-store id k v m' ∙ ground (arith, h k ne, ==_iff id k)

Changes-OnlyAt :
    (id : ℤ) (f : Option Tunnel → Option Tunnel) (m m' : Table Tunnel)
    → Changes id f m m'
    → OnlyAt id m m'
Changes-OnlyAt id f m m' h k ne = h k ∙ ground (arith, ==_iff id k)

module _ (codec : Codec) (e : Env) where
  Stopped-HasIds : (id : ℤ) (s s' : Server) → HasIds s → Stopped id s s' → HasIds s'
  Stopped-HasIds id s s' ids h k t at = elim (Bool-cases (id == k)) [
    | inl same ↦ elim (Option-cases (load k s.db.tasks)) [
      | inl absent ↦ ground (arith, h.tasks k, same, absent)
      | inr (u, old) ↦ ground (arith, h.tasks k, same, old, ids k u old)
    ]
    | inr other ↦ ids k t (ground (arith, h.tasks k, other))
  ]

  pub stop_server-OnlyAt :
      (id : ℤ) (s : Server)
      → HasIds s
      → OnlyAt id s.db.tasks (stop_server codec e id s).0.db.tasks
        × HasIds (stop_server codec e id s).0
  stop_server-OnlyAt id s ids = elim (stop_server_exact codec e id s ids) [
    | inl (why, same) ↦ rw same (λ k ne. refl, ids)
    | inr (able, fine, h) ↦ (
      Changes-OnlyAt id (set_status false) s.db.tasks (stop_server codec e id s).0.db.tasks h.tasks,
      Stopped-HasIds id s (stop_server codec e id s).0 ids h,
    )
  ]

  abbrev pub OnlyAtOutcome : ℤ → Table Tunnel → Outcome → Type 0
  OnlyAtOutcome id m none = Unit
  OnlyAtOutcome id m (some (s, b)) = OnlyAt id m s.db.tasks

  marked_running-OnlyAt :
      (id : ℤ) (t : Tunnel) (m : Table Tunnel) (r : Outcome)
      → t.id ≡ id
      → Keeps m (state_of r)
      → OnlyAtOutcome id m (marked_running codec e t r)
  unfolding update_task store_tasks_to_json_file
  marked_running-OnlyAt id t m none same h = tt
  marked_running-OnlyAt id t m (some (s, b)) same h =
      let t' = record t { status = true } in
      subst (λ i. OnlyAt i m (store t.id t' s.db.tasks)) same
        (store-OnlyAt t.id t' m s.db.tasks (λ k ne. ap (load k) h))

  pub start_task-OnlyAt :
      (fuel : ℕ) (id : ℤ) (s : Server)
      → HasIds s
      → OnlyAtOutcome id s.db.tasks (start_task codec e fuel id s)
  unfolding start_task get_task
  start_task-OnlyAt fuel id s ids = elim (Option-cases (load id s.db.tasks)) [
    | inl absent ↦ rw (start_task, get_task, absent) (λ k ne. refl)
    | inr (t, at) ↦
        rw (start_task, get_task, at)
          (marked_running-OnlyAt id t s.db.tasks (add_task codec e fuel t.id t.port t.mode s)
            (ids id t at) (add_task-Keeps codec e fuel t.id t.port t.mode s))
  ]

  pub answer_of-OnlyAt :
      (id : ℤ) (m : Table Tunnel) (r : Server × Bool)
      → OnlyAt id m r.0.db.tasks
      → OnlyAtAnswer id m (answer_of r)
  answer_of-OnlyAt id m (s, true) h = h
  answer_of-OnlyAt id m (s, false) h = h

  pub answered-OnlyAt :
      (id : ℤ) (m : Table Tunnel) (r : Outcome)
      → OnlyAtOutcome id m r
      → OnlyAtAnswer id m (answered r)
  answered-OnlyAt id m none h = tt
  answered-OnlyAt id m (some (s, true)) h = h
  answered-OnlyAt id m (some (s, false)) h = h

  pub del_task-OnlyAt :
      (id : ℤ) (s : Server) → HasIds s → OnlyAt id s.db.tasks (del_task codec e id s).0.db.tasks
  del_task-OnlyAt id s ids = elim (del_task_exact codec e id s ids) [
    | inl (why, same) ↦ rw same (λ k ne. refl)
    | inr (able, fine, h) ↦
        Changes-OnlyAt id gone s.db.tasks (del_task codec e id s).0.db.tasks h.tasks
  ]

  -- Other ids are not written on the way to a stop and a start.
  pub OnlyAtOutcome-trans :
      (id : ℤ) (m m' : Table Tunnel) (r : Outcome)
      → OnlyAt id m m'
      → OnlyAtOutcome id m' r
      → OnlyAtOutcome id m r
  OnlyAtOutcome-trans id m m' none h g = tt
  OnlyAtOutcome-trans id m m' (some (s, b)) h g = λ k ne. g k ne ∙ h k ne

  pub store-HasIds :
      (id : ℤ) (t : Tunnel) (s s' : Server)
      → HasIds s
      → t.id ≡ id
      → s'.db.tasks ≡ store id t s.db.tasks
      → HasIds s'
  store-HasIds id t s s' ids same new k u at =
      let was = sym (load-store id k t s.db.tasks) ∙ (ap (load k) (sym new) ∙ at) in
      elim (Bool-cases (id == k)) [
        | inl here ↦ ground (arith, was, here, ==_iff id k)
        | inr other ↦ ids k u (ground (arith, was, other))
      ]

  pub restarted-OnlyAt :
      (fuel : ℕ) (draws : List ℤ) (now : Text) (id : ℤ) (m : Table Tunnel) (r : Outcome)
      → OnlyAtOutcome id m r
      → OnlyAtAnswer id m (restarted codec e fuel draws now r)
  restarted-OnlyAt fuel draws now id m none h = tt
  restarted-OnlyAt fuel draws now id m (some (s, b)) h = h
