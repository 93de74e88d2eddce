-- ===== src/Web/Changes.antt =====
-- web/controllers/index.go: `Add` and `Edit` change at most the entry of one id.
use nps_socks.Web.Request.{Request, get_int_no_err, auth_str_to_map, get_escape_string}
use nps_socks.Web.Tunnels.{
  add, edit, put_task, Reply, edit_fields, edited, edit_port, port_for, add_as, ported, owned_by,
  listed, started, port_opens, restarted, edit_accounts, err, edit_owned, edit_found, page,
  tunnel_of, has_enough,
}
use nps_socks.Web.Ownership.{
  OnlyAt, OnlyAtAnswer, store-OnlyAt, stop_server-OnlyAt, start_task-OnlyAt, restarted-OnlyAt,
  store-HasIds, OnlyAtOutcome-trans,
}
use nps_socks.Server.Stopping.{HasIds}
use nps_socks.Server.Starting.{add_task-Keeps, Keeps}
use nps_socks.Server.{Server, Env, Outcome, stop_server, start_task, state_of, add_task}
use nps_socks.File.JsonDb.{Codec, JsonDb, store_tasks_to_json_file, get_task_id, get_client}
use nps_socks.File.Obj.{Tunnel, Client, empty_flow}
use nps_socks.File.Tasks.{get_task, update_task, new_task, is_secret}
use nps_socks.SyncMap.{Table, load, values}
use nps_socks.Prelude.{
  Option, Bool, ℤ, ℕ, List, Text, none, some, true, false, refl, ◌∙◌, ap, ◌==◌, int_eq, inl, inr,
  Bool-cases, if◌then◌else◌, codes, any, not, ◌&&◌, text_eq,
}

module _ (codec : Codec) (e : Env) (fuel : ℕ) (draws : List ℤ) (now : Text) where
  put_task-OnlyAt :
      (id : ℤ) (t : Tunnel) (s : Server) → OnlyAt id s.db.tasks (put_task id t s).db.tasks
  put_task-OnlyAt id t s = store-OnlyAt id t s.db.tasks s.db.tasks (λ k ne. refl)

  restart-OnlyAt :
      (id : ℤ) (s s' : Server)
      → OnlyAt id s.db.tasks s'.db.tasks
      → HasIds s'
      → OnlyAtAnswer id s.db.tasks (
          restarted codec e fuel draws now
            (start_task codec e fuel id (stop_server codec e id s').0))
  restart-OnlyAt id s s' h ids =
      let (stopped_only, ids') = stop_server-OnlyAt codec e id s' ids in
      let s₂ = (stop_server codec e id s').0 in
      restarted-OnlyAt codec e fuel draws now id s.db.tasks (start_task codec e fuel id s₂) (
        OnlyAtOutcome-trans codec e id s.db.tasks s₂.db.tasks (start_task codec e fuel id s₂)
          (λ k ne. stopped_only k ne ∙ h k ne) (start_task-OnlyAt codec e fuel id s₂ ids'))

  -- Either branch of a test.
  if-OnlyAt :
      (id : ℤ) (m : Table Tunnel) (b : Bool) (x y : Reply)
      → OnlyAtAnswer id m x
      → OnlyAtAnswer id m y
      → OnlyAtAnswer id m (if b then x else y)
  if-OnlyAt id m true x y h g = h
  if-OnlyAt id m false x y h g = g

  edit_accounts-OnlyAt :
      (r : Request) (id : ℤ) (t : Tunnel) (s : Server) (o : Option (List (Text × Text)))
      → HasIds s
      → OnlyAtAnswer id s.db.tasks (edit_accounts codec e fuel draws now r id t s o)
  unfolding update_task store_tasks_to_json_file
  edit_accounts-OnlyAt r id t s none ids = put_task-OnlyAt id (edited r id t) s
  edit_accounts-OnlyAt r id t s (some accounts) ids =
      let t' = record (edited r id t) {
        multi_account = some (record { account_map = accounts });
      } in
      let s' = record s { db = update_task codec t' s.db } in
      restart-OnlyAt id s s' (store-OnlyAt id t' s.db.tasks s.db.tasks (λ k ne. refl))
        (store-HasIds codec e id t' s s' ids refl refl)

  edit_fields-OnlyAt :
      (r : Request) (id : ℤ) (t : Tunnel) (s : Server)
      → HasIds s
      → OnlyAtAnswer id s.db.tasks (edit_fields codec e fuel draws now r id t s)
  edit_fields-OnlyAt r id t s =
      edit_accounts-OnlyAt r id t s (auth_str_to_map (get_escape_string r (codes "S5User")))

  edit_port-OnlyAt :
      (r : Request) (id : ℤ) (t : Tunnel) (s : Server) (o : Option ℤ)
      → HasIds s
      → OnlyAtAnswer id s.db.tasks (edit_port codec e fuel draws now r id t s o)
  edit_port-OnlyAt r id t s none ids = tt
  edit_port-OnlyAt r id t s (some port) ids =
      let t' = record t { port = port } in
      if-OnlyAt id s.db.tasks
        (port_opens codec e fuel draws now (get_int_no_err r (codes "port")) t.mode)
        (edit_fields codec e fuel draws now r id t' s) (some (put_task id t' s, err))
        (edit_fields-OnlyAt r id t' s ids) (put_task-OnlyAt id t' s)

  edit_owned-OnlyAt :
      (r : Request) (id : ℤ) (t : Tunnel) (s : Server) (o : Option Client)
      → HasIds s
      → OnlyAtAnswer id s.db.tasks (edit_owned codec e fuel draws now r id t s o)
  edit_owned-OnlyAt r id t s none ids = λ k ne. refl
  edit_owned-OnlyAt r id t s (some c) ids =
      let port = get_int_no_err r (codes "port") in
      let t' = record t { client = c } in
      let o = port_for codec e fuel draws now port t.mode in
      if-OnlyAt id s.db.tasks (not (port == t.port)) (edit_port codec e fuel draws now r id t' s o)
        (edit_fields codec e fuel draws now r id t' s) (edit_port-OnlyAt r id t' s o ids)
        (edit_fields-OnlyAt r id t' s ids)

  edit_found-OnlyAt :
      (r : Request) (id : ℤ) (s : Server) (o : Option Tunnel)
      → HasIds s
      → OnlyAtAnswer id s.db.tasks (edit_found codec e fuel draws now r id s o)
  edit_found-OnlyAt r id s none ids = λ k ne. refl
  edit_found-OnlyAt r id s (some t) ids =
      edit_owned-OnlyAt r id t s (get_client (get_int_no_err r (codes "client_id")) s.db) ids

  pub edit-OnlyAt :
      (r : Request) (s : Server)
      → HasIds s
      → OnlyAtAnswer (get_int_no_err r (codes "id")) s.db.tasks (edit codec e fuel draws now r s)
  unfolding edit
  edit-OnlyAt r s ids =
      let id = get_int_no_err r (codes "id") in
      if-OnlyAt id s.db.tasks r.is_get (some (s, page))
        (edit_found codec e fuel draws now r id s (get_task id s.db)) (λ k ne. refl)
        (edit_found-OnlyAt r id s (get_task id s.db) ids)

  started-OnlyAt :
      (id : ℤ) (m : Table Tunnel) (o : Outcome)
      → Keeps m (state_of o)
      → (m' : Table Tunnel) → OnlyAt id m' m
      → OnlyAtAnswer id m' (started codec e fuel draws now id o)
  started-OnlyAt id m none h m' only = tt
  started-OnlyAt id m (some (s, true)) h m' only = λ k ne. ap (load k) h ∙ only k ne
  started-OnlyAt id m (some (s, false)) h m' only = λ k ne. ap (load k) h ∙ only k ne

  -- What NewTask gives has the tunnel in its table.
  Lists : Tunnel → JsonDb → Option JsonDb → Type 0
  Lists t db none = Unit
  Lists t db (some db') = OnlyAt t.id db.tasks db'.tasks

  new_task-Lists : (t : Tunnel) (db : JsonDb) → Lists t db (new_task codec t db)
  unfolding new_task store_tasks_to_json_file Lists
  new_task-Lists t db =
      elim (Bool-cases (any (λ v. is_secret v && v.password == t.password) (values db.tasks))) [
        | inl taken ↦ rw (Lists, new_task, taken) tt
        | inr free ↦
            rw (Lists, new_task, free)
              (store-OnlyAt t.id (record t { flow = some empty_flow }) db.tasks db.tasks
                (λ k ne. refl))
      ]

  listed-OnlyAt :
      (t : Tunnel) (s : Server) (o : Option JsonDb)
      → Lists t s.db o
      → OnlyAtAnswer t.id s.db.tasks (listed codec e fuel draws now t s o)
  unfolding Lists
  listed-OnlyAt t s none h = λ k ne. refl
  listed-OnlyAt t s (some db) h =
      let s' = record s { db = db } in
      started-OnlyAt t.id db.tasks (add_task codec e fuel t.id t.port t.mode s')
        (add_task-Keeps codec e fuel t.id t.port t.mode s') s.db.tasks h

  owned_by-OnlyAt :
      (r : Request) (id port : ℤ) (accounts : List (Text × Text)) (s : Server) (o : Option Client)
      → OnlyAtAnswer id s.db.tasks (owned_by codec e fuel draws now r id port accounts s o)
  owned_by-OnlyAt r id port accounts s none = λ k ne. refl
  owned_by-OnlyAt r id port accounts s (some c) =
      let t = tunnel_of codec e fuel draws now r id port accounts c in
      if-OnlyAt id s.db.tasks (has_enough c s.db) (some (s, err))
        (listed codec e fuel draws now t s (new_task codec t s.db)) (λ k ne. refl)
        (listed-OnlyAt t s (new_task codec t s.db) (new_task-Lists t s.db))

  ported-OnlyAt :
      (r : Request) (id : ℤ) (accounts : List (Text × Text)) (s : Server) (o : Option ℤ)
      → OnlyAtAnswer id s.db.tasks (ported codec e fuel draws now r id accounts s o)
  ported-OnlyAt r id accounts s none = tt
  ported-OnlyAt r id accounts s (some port) =
      let o = get_client (get_int_no_err r (codes "client_id")) s.db in
      if-OnlyAt id s.db.tasks
        (port_opens codec e fuel draws now port (get_escape_string r (codes "type")))
        (owned_by codec e fuel draws now r id port accounts s o) (some (s, err))
        (owned_by-OnlyAt r id port accounts s o) (λ k ne. refl)

  add_as-OnlyAt :
      (r : Request) (id : ℤ) (s : Server) (o : Option (List (Text × Text)))
      → OnlyAtAnswer id s.db.tasks (add_as codec e fuel draws now r id s o)
  add_as-OnlyAt r id s none = λ k ne. refl
  add_as-OnlyAt r id s (some accounts) = ported-OnlyAt r id accounts s (
      port_for codec e fuel draws now (get_int_no_err r (codes "port"))
        (get_escape_string r (codes "type")))

  pub add-OnlyAt :
      (r : Request) (s : Server)
      → OnlyAtAnswer (get_task_id s.db).1 s.db.tasks (add codec e fuel draws now r s)
  unfolding add get_task_id
  add-OnlyAt r s =
      let s' = record s { db = (get_task_id s.db).0 } in
      let id = (get_task_id s.db).1 in
      let o = auth_str_to_map (get_escape_string r (codes "S5User")) in
      if-OnlyAt id s.db.tasks r.is_get (some (s, page)) (add_as codec e fuel draws now r id s' o)
        (λ k ne. refl) (add_as-OnlyAt r id s' o)
