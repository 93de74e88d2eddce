-- ===== src/Server/Stopping.antt =====
-- server/server.go: StopServer and DelTask either do all of their work or nothing.
use nps_socks.SyncMap.{Table, load, delete, load-delete, load-store}
use nps_socks.File.Obj.{Tunnel}
use nps_socks.File.JsonDb.{Codec, store_tasks_to_json_file, JsonDb}
use nps_socks.File.Tasks.{update_task, get_task}
use nps_socks.File.Tasks
use nps_socks.Server.{del_task, Server, Service, Env, stop_server, is_closed, deleted}
use nps_socks.Prelude.{
  Bool, ℤ, Option, none, some, ◌≡◌, if◌then◌else◌, ◌==◌, arith, true, false, int_eq, ==_iff, ◌⊎◌,
  Option-cases, inl, inr, Bool-cases, refl, some_inj, sym, ◌∙◌, ◌≢◌,
}

-- A flag on an entry of the table.
abbrev pub set_status : Bool → Option Tunnel → Option Tunnel
set_status b none = none
set_status b (some t) = some (record t { status = b })

-- What a change at one id leaves of a table.
abbrev pub Changes : {V : Type 0} → ℤ → (Option V → Option V) → Table V → Table V → Type 0
Changes id f old new = (k : ℤ) → load k new ≡ (if id == k then f (load k old) else load k old)

abbrev pub gone : {V : Type 0} → Option V → Option V
gone v = none

-- Every tunnel of the table is under its id.
abbrev pub HasIds : Server → Type 0
HasIds s = (k : ℤ) (t : Tunnel) → load k s.db.tasks ≡ some t → t.id ≡ k

delete-Changes : {V : Type 0} (id : ℤ) (m : Table V) → Changes id gone m (delete id m)
delete-Changes id m k = load-delete id k m

-- The table of tunnels after StopServer.
pub update_task-Changes :
    (codec : Codec) (id : ℤ) (b : Bool) (t : Tunnel) (db : JsonDb)
    → t.id ≡ id
    → load id db.tasks ≡ some t
    → Changes id (set_status b) db.tasks (update_task codec (record t { status = b }) db).tasks
unfolding update_task store_tasks_to_json_file
update_task-Changes codec id b t db same at k =
    ground (arith, load-store t.id k (record t { status = b }) db.tasks, ==_iff id k, same, at)

-- What StopServer does to the state, and what DelTask does.
pub record Stopped (id : ℤ) (s s' : Server) : Type 0 where
  pub run_list : Changes id gone s.run_list s'.run_list
  pub tasks : Changes id (set_status false) s.db.tasks s'.db.tasks
  pub hosts : s'.db.hosts ≡ s.db.hosts
  pub clients : s'.db.clients ≡ s.db.clients

pub record Removed (id : ℤ) (s s' : Server) : Type 0 where
  pub run_list : Changes id gone s.run_list s'.run_list
  pub tasks : Changes id gone s.db.tasks s'.db.tasks
  pub hosts : s'.db.hosts ≡ s.db.hosts
  pub clients : s'.db.clients ≡ s.db.clients

-- Why a task cannot be stopped: its service does not close, or it is not in the database.
abbrev pub IsStuck : Codec → Env → ℤ → Server → Type 0
IsStuck codec e id s =
    (v : Option Service) × (load id s.run_list ≡ some v)
    × ((is_closed codec e id v ≡ false) ⊎ (load id s.db.tasks ≡ none))

not-IsStuck :
    (codec : Codec) (e : Env) (id : ℤ) (s : Server) (v : Option Service) (t : Tunnel)
    → load id s.run_list ≡ some v
    → is_closed codec e id v ≡ true
    → load id s.db.tasks ≡ some t
    → ¬ IsStuck codec e id s
not-IsStuck codec e id s v t runs closed at (w, also, inl refuses) =
    let same : v ≡ w = some_inj (sym runs ∙ also) in
    let again : is_closed codec e id w ≡ true = rw (← same) closed in ground (arith, again, refuses)
not-IsStuck codec e id s v t runs closed at (w, also, inr unknown) = ground (arith, at, unknown)

module _ (codec : Codec) (e : Env) where
  -- StopServer fails, changing nothing, exactly when the task does not run, the Close of its service
  -- fails or it is not in the database. Otherwise it takes the task, and no other, from the run list,
  -- sets the status of that task, and of no other, to false, and leaves hosts and clients alone. Every
  -- tunnel of the table is under its id.
  pub stop_server_exact :
      (id : ℤ) (s : Server)
      → HasIds s
      → (((load id s.run_list ≡ none) ⊎ IsStuck codec e id s)
          × (stop_server codec e id s ≡ (s, false)))
        ⊎ ((¬ IsStuck codec e id s)
            × ((stop_server codec e id s).1 ≡ true)
            × Stopped id s (stop_server codec e id s).0)
  unfolding stop_server get_task
  stop_server_exact id s keyed = elim (Option-cases (load id s.run_list)) [
    | inl none_runs ↦ inl (inl none_runs, rw (stop_server, none_runs) refl)
    | inr (v, runs) ↦ elim (Bool-cases (is_closed codec e id v)) [
      | inr refuses ↦ inl (inr (v, runs, inl refuses), rw (stop_server, runs, refuses) refl)
      | inl closed ↦ elim (Option-cases (load id s.db.tasks)) [
        | inl unknown ↦
            inl (inr (v, runs, inr unknown), rw (stop_server, runs, closed, unknown) refl)
        | inr (t, at) ↦ inr (
          not-IsStuck codec e id s v t runs closed at,
          rw (stop_server, runs, closed, at) refl,
          rw (stop_server, runs, closed, at)
              (record {
                run_list = delete-Changes id s.run_list;
                tasks = update_task-Changes codec id false t s.db (keyed id t at) at;
                hosts = unfold update_task store_tasks_to_json_file in refl;
                clients = unfold update_task store_tasks_to_json_file in refl;
              }),
        )
      ]
    ]
  ]

  del_task-Removed :
      (id : ℤ) (s s' : Server)
      → Changes id gone s.run_list s'.run_list
      → ((k : ℤ) → (id ≢ k) → load k s'.db.tasks ≡ load k s.db.tasks)
      → s'.db.hosts ≡ s.db.hosts
      → s'.db.clients ≡ s.db.clients
      → Removed id s (record s' { db = Tasks.del_task codec id s'.db })
  unfolding Tasks.del_task store_tasks_to_json_file
  del_task-Removed id s s' runs tasks hosts clients = record {
    run_list = runs;
    tasks = λ k. ground (arith, load-delete id k s'.db.tasks, ==_iff id k, tasks k);
    hosts = hosts;
    clients = clients;
  }

  deleted-Removed :
      (id : ℤ) (s : Server) (r : Server × Bool)
      → r.1 ≡ true
      → Stopped id s r.0
      → ((deleted codec e id r).1 ≡ true) × Removed id s (deleted codec e id r).0
  deleted-Removed id s (s', false) ok h = absurd (ground (arith, ok))
  deleted-Removed id s (s', true) ok h = (
    refl,
    del_task-Removed id s s' h.run_list (λ k other. ground (arith, h.tasks k, ==_iff id k, other))
        h.hosts h.clients,
  )

  -- DelTask fails, changing nothing, exactly when the task runs and its service does not close or it
  -- is not in the database. Otherwise the task, and no other, leaves the run list and the table, and
  -- hosts and clients are left alone. Every tunnel of the table is under its id.
  pub del_task_exact :
      (id : ℤ) (s : Server)
      → HasIds s
      → (IsStuck codec e id s × (del_task codec e id s ≡ (s, false)))
        ⊎ ((¬ IsStuck codec e id s)
            × ((del_task codec e id s).1 ≡ true)
            × Removed id s (del_task codec e id s).0)
  unfolding del_task
  del_task_exact id s keyed = elim (Option-cases (load id s.run_list)) [
    | inl none_runs ↦ inr (
      λ stuck. ground (arith, stuck.1, none_runs),
      rw (del_task, none_runs) refl,
      rw (del_task, none_runs)
          (del_task-Removed id s s (λ k. ground (arith, ==_iff id k, none_runs)) (λ k other. refl)
            refl refl),
    )
    | inr (v, runs) ↦ elim (stop_server_exact id s keyed) [
      | inl (inl none_runs, same) ↦ absurd (ground (arith, runs, none_runs))
      | inl (inr stuck, same) ↦ inl (stuck, rw (del_task, runs, same) refl)
      | inr (able, ok, stopped) ↦ inr (
        able,
        rw (del_task, runs) (deleted-Removed id s (stop_server codec e id s) ok stopped).0,
        rw (del_task, runs) (deleted-Removed id s (stop_server codec e id s) ok stopped).1,
      )
    ]
  ]
