-- ===== src/Server/Lifecycle.antt =====
-- server/server.go: what may happen to the tasks, from the start of the program on.
use nps_socks.Server.Booting.{Boots, add_task-Starts, Starts-IsConsistent, new_mode-IsConsistent}
use nps_socks.Server.Consistent.{
  IsConsistent, stop_server-IsConsistent, close_client-IsConsistent, del_task-IsConsistent,
}
use nps_socks.File.Tasks.Secrets.{new_task-load}
use nps_socks.Server.Starting.{Starts}
use nps_socks.File.Tasks.{new_task, get_task, update_task}
use nps_socks.SyncMap.{load, load-delete, store}
use nps_socks.File.Obj.{Tunnel, empty_flow}
use nps_socks.File.JsonDb.{Codec, JsonDb}
use nps_socks.Prelude.{
  ℤ, Option-cases, arith, ◌==◌, inl, ◌≡◌, subst, inr, some, false, ap, true, none, ◌∙◌, sym, ℕ,
  int_eq, text_eq, Bool, some_inj, if◌then◌else◌, ==_iff, refl, Bool-cases, List, Option, pos,
}
use nps_socks.Server.Stopping.{Changes, set_status, update_task-Changes}
use nps_socks.Server.{
  del_task, Server, Message, Env, open_task, stop_server, web_server_mode, open_task_again,
  close_task, start_task, close_client, start_error, deal_bridge_task, add_task, Service, new_mode,
}

-- The task of the id, if there is one, is not the web interface.
abbrev pub IsPlain : ℤ → Server → Type 0
IsPlain id s = (t : Tunnel) → load id s.db.tasks ≡ some t → (t.mode == web_server_mode) ≡ false

-- When a message of the bridge is dealt with, a new task is in the table and marked as running.
abbrev pub Fits : Message → Server → Type 0
Fits (open_task t) s = (load t.id s.db.tasks ≡ some t) × (t.status ≡ true) × IsPlain t.id s
Fits (open_task_again t) s = IsPlain t.id s
Fits (close_task t) s = Unit
Fits (close_client id) s = Unit

-- What may happen to the tasks: the start of the program, NewTask, StartTask, StopServer, DelTask, the
-- failure of a service that was started, and a message of the bridge. A new task has an id that does not run.
pub data Step (codec : Codec) (others : List ℤ) : Server → Server → Type 0 where
  created :
      (t : Tunnel) (db : JsonDb) (s : Server)
      → new_task codec t s.db ≡ some db
      → load t.id s.run_list ≡ none
      → Step codec others s (record s { db = db })
  started :
      (e : Env) (fuel : ℕ) (id : ℤ) (s s' : Server) (ok : Bool)
      → IsPlain id s
      → start_task codec e fuel id s ≡ some (s', ok)
      → Step codec others s s'
  stopped : (e : Env) (id : ℤ) (s : Server) → Step codec others s (stop_server codec e id s).0
  deleted : (e : Env) (id : ℤ) (s : Server) → Step codec others s (del_task codec e id s).0
  booted :
      (e : Env) (fuel : ℕ) (s s' : Server) (svr : Option Service)
      → Boots codec e others s
      → new_mode codec e (add_task codec e fuel) web_server_mode s ≡ some (s', svr)
      → Step codec others s (record s' { run_list = store (pos 0) svr s'.run_list })
  failed : (e : Env) (id : ℤ) (s : Server) → Step codec others s (start_error codec e id s)
  dealt :
      (e : Env) (fuel : ℕ) (m : Message) (s s' : Server)
      → Fits m s
      → deal_bridge_task codec e fuel m s ≡ some s'
      → Step codec others s s'

pub data Steps (codec : Codec) (others : List ℤ) : Server → Server → Type 0 where
  here : (s : Server) → Steps codec others s s
  next : {a b c : Server} → Step codec others a b → Steps codec others b c → Steps codec others a c

module _ (codec : Codec) (others : List ℤ) where
  -- StartTask marks a task that may be new to what runs.
  marked_running-IsConsistent :
      (t : Tunnel) (id : ℤ) (s s₁ s' : Server)
      → Starts id s s₁
      → load id s.db.tasks ≡ some t
      → s'.run_list ≡ s₁.run_list
      → Changes id (set_status true) s₁.db.tasks s'.db.tasks
      → IsConsistent others s
      → IsConsistent others s'
  marked_running-IsConsistent t id s s₁ s' h at rs ch c =
      let ts = λ (k : ℤ). ap (λ d. load k d.tasks) h.db in
      record {
        ids = λ k u was. elim (Option-cases (load k s.db.tasks)) [
          | inl absent ↦ absurd (ground (arith, ch k, ts k, absent, was))
          | inr (w, before) ↦ ground (arith, ch k, ts k, was, before, c.ids k w)
        ];
        runs = λ k v task runs. elim (h.only k v (ap (load k) (sym rs) ∙ runs)) [
          | inl same ↦
              (record t { status = true }, ground (arith, ch k, ts k, ==_iff id k, same, at), refl)
          | inr before ↦
              let (u, was, on) = c.runs k v task before in
              elim (Bool-cases (id == k)) [
                | inl same ↦
                    (record u { status = true }, ground (arith, ch k, ts k, same, was), refl)
                | inr other ↦ (u, ground (arith, ch k, ts k, other, was), on)
              ]
        ];
      }

  start_task-IsConsistent :
      (e : Env) (fuel : ℕ) (id : ℤ) (s s' : Server) (ok : Bool)
      → IsPlain id s
      → start_task codec e fuel id s ≡ some (s', ok)
      → IsConsistent others s
      → IsConsistent others s'
  unfolding start_task get_task
  start_task-IsConsistent e fuel id s s' ok plain done c =
      elim (Option-cases (load id s.db.tasks)) [
        | inl absent ↦
            subst (λ r. IsConsistent others r.0) (some_inj (rw (start_task, absent) at done)) c
        | inr (t, at) ↦ elim (Option-cases (add_task codec e fuel t.id t.port t.mode s)) [
          | inl ended ↦ absurd (ground (arith, rw (start_task, at, ended) at done))
          | inr ((s₁, up), began) ↦
              let same = c.ids id t at in
              let h =
                add_task-Starts codec others e fuel t.id t.port t.mode s s₁ up (plain t at) began in
              subst (λ r. IsConsistent others r.0) (some_inj (rw (start_task, at, began) at done))
                (marked_running-IsConsistent t id s s₁
                  (record s₁ { db = update_task codec (record t { status = true }) s₁.db })
                  (subst (λ i. Starts i s s₁) same h) at refl
                  (update_task-Changes codec id true t s₁.db same
                    (ap (λ d. load id d.tasks) h.db ∙ at))
                  c)
        ]
      ]

  new_task-IsConsistent :
      (t : Tunnel) (db : JsonDb) (s : Server)
      → new_task codec t s.db ≡ some db
      → load t.id s.run_list ≡ none
      → IsConsistent others s
      → IsConsistent others (record s { db = db })
  new_task-IsConsistent t db s done idle c =
      let ch : (k : ℤ)
          → load k db.tasks ≡ (
              if t.id == k then some (record t { flow = some empty_flow }) else load k s.db.tasks) =
        new_task-load codec t s.db db done in
      record {
        ids = λ k u was. ground (arith, ch k, was, ==_iff t.id k, c.ids k u);
        runs = λ k v task runs.
            let (u, was, on) = c.runs k v task runs in
            (u, ground (arith, ch k, was, ==_iff t.id k, runs, idle), on);
      }

  deal_bridge_task-IsConsistent :
      (e : Env) (fuel : ℕ) (m : Message) (s s' : Server)
      → Fits m s
      → deal_bridge_task codec e fuel m s ≡ some s'
      → IsConsistent others s
      → IsConsistent others s'
  unfolding deal_bridge_task
  deal_bridge_task-IsConsistent e fuel (open_task t) s s' (at, on, plain) done c =
      elim (Option-cases (add_task codec e fuel t.id t.port t.mode s)) [
        | inl ended ↦ absurd (ground (arith, rw ended at done))
        | inr ((s₁, up), began) ↦ subst (IsConsistent others) (some_inj (rw began at done)) (
            Starts-IsConsistent codec others t t.id s s₁
              (add_task-Starts codec others e fuel t.id t.port t.mode s s₁ up (plain t at) began) at
              on c)
      ]
  deal_bridge_task-IsConsistent e fuel (open_task_again t) s s' plain done c =
      elim (Option-cases (start_task codec e fuel t.id s)) [
        | inl ended ↦ absurd (ground (arith, rw ended at done))
        | inr ((s₁, up), began) ↦
            subst (IsConsistent others) (some_inj (rw began at done))
              (start_task-IsConsistent e fuel t.id s s₁ up plain began c)
      ]
  deal_bridge_task-IsConsistent e fuel (close_task t) s s' fits done c =
      subst (IsConsistent others) (some_inj done) (stop_server-IsConsistent codec others e t.id s c)
  deal_bridge_task-IsConsistent e fuel (close_client id) s s' fits done c =
      subst (IsConsistent others) (some_inj done) (close_client-IsConsistent codec others e id s c)

  Step-IsConsistent :
      (s s' : Server) → Step codec others s s' → IsConsistent others s → IsConsistent others s'
  unfolding start_error
  Step-IsConsistent _ _ (created t db s done idle) c = new_task-IsConsistent t db s done idle c
  Step-IsConsistent _ _ (started e fuel id s s' ok plain done) c =
      start_task-IsConsistent e fuel id s s' ok plain done c
  Step-IsConsistent _ _ (booted e fuel s s' svr fits done) c =
      new_mode-IsConsistent codec others e fuel s s' svr fits done c
  Step-IsConsistent _ _ (stopped e id s) c = stop_server-IsConsistent codec others e id s c
  Step-IsConsistent _ _ (deleted e id s) c = del_task-IsConsistent codec others e id s c
  Step-IsConsistent _ _ (failed e id s) c = record {
    ids = c.ids;
    runs = λ k v task runs. c.runs k v task (ground (arith, load-delete id k s.run_list, runs));
  }
  Step-IsConsistent _ _ (dealt e fuel m s s' fits done) c =
      deal_bridge_task-IsConsistent e fuel m s s' fits done c

  -- After any of the steps, in any order - the start of the program with InitFromCsv, NewTask, StartTask,
  -- StopServer, DelTask, a service that fails, a message of the bridge - every entry of the run list, but
  -- for the ids of `others`, is a task of the table under its id with the status true, if it was so before.
  -- When the program starts, `others` holds 0 and the id of the public client; a task that is started is
  -- not the web interface, a new task has an id that does not run, and a task that the bridge opens is in
  -- the table and marked as running.
  pub Steps-IsConsistent :
      (s s' : Server) → Steps codec others s s' → IsConsistent others s → IsConsistent others s'
  Steps-IsConsistent s _ (here _) c = c
  Steps-IsConsistent s s' (next {b = b} step more) c =
      Steps-IsConsistent b s' more (Step-IsConsistent s b step c)
