-- ===== src/Web/Guarded.antt =====
-- web/controllers: the user of a client cannot change the tunnels of another client.
use nps_socks.Strconv.{itoa}
use nps_socks.Web.Changes.{edit-OnlyAt, add-OnlyAt}
use nps_socks.Web.Access.{
  prepare, runs, Session, check_user_auth, belongs, session_runs, user_runs, is_signed,
}
use nps_socks.Web.Request.{Request, get_int_no_err, set_param}
use nps_socks.Web.Tunnels.{Reply, Answer, add, edit, stop, del, start}
use nps_socks.Web.Ownership.{
  OnlyAtAnswer, stop_server-OnlyAt, start_task-OnlyAt, del_task-OnlyAt, answer_of-OnlyAt,
  answered-OnlyAt,
}
use nps_socks.Server.Stopping.{HasIds}
use nps_socks.Server.{Server, Env, stop_server, start_task, del_task}
use nps_socks.File.JsonDb.{Codec, JsonDb, get_task_id}
use nps_socks.File.Obj.{Tunnel}
use nps_socks.SyncMap.{load}
use nps_socks.Prelude.{
  Option, Bool, ℤ, ℕ, List, Text, none, some, true, false, ◌≡◌, ◌≢◌, sym, ◌∙◌, ap, subst, ◌==◌,
  ==_iff, int_eq, arith, inl, inr, Option-cases, Bool-cases, codes, pos, beq_text, contains, ◌⊎◌,
  ◌||◌, has_prefix, some_inj,
}

-- The actions on tunnels that change something.
pub data Action : Type 0 where
  add_action edit_action stop_action del_action start_action : Action

abbrev pub action_name : Action → Text
action_name add_action = codes "add"
action_name edit_action = codes "edit"
action_name stop_action = codes "stop"
action_name del_action = codes "del"
action_name start_action = codes "start"

module _ (codec : Codec) (e : Env) (fuel : ℕ) (draws : List ℤ) (now : Text) where
  -- The action of the name.
  abbrev pub act : Action → Request → Server → Reply
  act add_action = add codec e fuel draws now
  act edit_action = edit codec e fuel draws now
  act stop_action = stop codec e fuel draws now
  act del_action = del codec e fuel draws now
  act start_action = start codec e fuel draws now

  -- The id that an action writes at.
  abbrev place : Action → Request → Server → ℤ
  place add_action r s = (get_task_id s.db).1
  place edit_action r s = get_int_no_err r (codes "id")
  place stop_action r s = get_int_no_err r (codes "id")
  place del_action r s = get_int_no_err r (codes "id")
  place start_action r s = get_int_no_err r (codes "id")

  act-OnlyAt :
      (a : Action) (r : Request) (s : Server)
      → HasIds s
      → OnlyAtAnswer (place a r s) s.db.tasks (act a r s)
  unfolding stop del start
  act-OnlyAt add_action r s ids = add-OnlyAt codec e fuel draws now r s
  act-OnlyAt edit_action r s ids = edit-OnlyAt codec e fuel draws now r s ids
  act-OnlyAt stop_action r s ids =
      let id = get_int_no_err r (codes "id") in
      answer_of-OnlyAt codec e id s.db.tasks (stop_server codec e id s)
        (stop_server-OnlyAt codec e id s ids).0
  act-OnlyAt del_action r s ids =
      let id = get_int_no_err r (codes "id") in
      answer_of-OnlyAt codec e id s.db.tasks (del_task codec e id s)
        (del_task-OnlyAt codec e id s ids)
  act-OnlyAt start_action r s ids =
      let id = get_int_no_err r (codes "id") in
      answered-OnlyAt codec e id s.db.tasks (start_task codec e fuel id s)
        (start_task-OnlyAt codec e fuel id s ids)

module _ (md5 : Text → Text) (clock : ℤ) (auth_key random : Text) where
  -- The user of a client that is let through has passed CheckUserAuth with what the action then reads.
  Passed : Text → Text → Option ℤ → Request → JsonDb → Type 0
  Passed controller action none r db = ⊥
  Passed controller action (some cid) r db =
      check_user_auth controller action (get_int_no_err r (codes "id")) cid db ≡ true

  user_runs-Passed :
      (controller action : Text) (r r' : Request) (db : JsonDb) (ses ses' : Session) (o : Option ℤ)
      → user_runs md5 clock auth_key random controller action r db ses o ≡ runs ses' r' false
      → Passed controller action o r' db
  unfolding Passed
  user_runs-Passed controller action r r' db ses ses' none h = cc
  user_runs-Passed controller action r r' db ses ses' (some cid) h =
      let r'' = set_param (codes "client_id") (itoa cid) r in
      elim (Bool-cases
        (check_user_auth controller action (get_int_no_err r'' (codes "id")) cid db)) [
          | inl lets ↦ ground (arith, h, lets)
          | inr stops ↦ absurd (ground (arith, h, stops))
        ]

  session_runs-Passed :
      (controller action : Text) (r r' : Request) (db : JsonDb) (ses ses' : Session)
      (o : Option Bool)
      → session_runs md5 clock auth_key random controller action r db ses o ≡ runs ses' r' false
      → Passed controller action ses.client_id r' db
  session_runs-Passed controller action r r' db ses ses' none h = cc
  session_runs-Passed controller action r r' db ses ses' (some true) h = cc
  session_runs-Passed controller action r r' db ses ses' (some false) h =
      user_runs-Passed controller action r r' db ses ses' ses.client_id h

  prepare-Passed :
      (controller action : Text) (r r' : Request) (db : JsonDb) (ses ses' : Session)
      → prepare md5 clock auth_key random controller action ses r db ≡ runs ses' r' false
      → Passed controller action ses.client_id r' db
  unfolding prepare
  prepare-Passed controller action r r' db ses ses' h =
      elim (Bool-cases (is_signed md5 clock auth_key random r)) [
        | inl signed ↦ absurd (ground (arith, h, signed))
        | inr unsigned ↦ elim (Bool-cases ses.auth) [
          | inr out ↦ absurd (ground (arith, h, unsigned, out))
          | inl known ↦
              session_runs-Passed controller action r r' db ses ses' ses.is_admin
                (ground (arith, h, unsigned, known))
        ]
      ]

-- The tunnel of an id that passed is the client's, or the id is 0.
abbrev IsOwn : ℤ → ℤ → JsonDb → Type 0
IsOwn id cid db = (id ≡ pos 0) ⊎ ((t : Tunnel) × (load id db.tasks ≡ some t) × (t.client.id ≡ cid))

belongs-IsOwn :
    (id cid : ℤ) (db : JsonDb)
    → (id == pos 0 || belongs (λ (t : Tunnel). t.client.id) cid id db.tasks) ≡ true
    → IsOwn id cid db
belongs-IsOwn id cid db h = elim (Bool-cases (id == pos 0)) [
  | inl zero_id ↦ inl ((==_iff id (pos 0)).0 zero_id)
  | inr other ↦ elim (Option-cases (load id db.tasks)) [
    | inl absent ↦ absurd (ground (arith, h, other, absent))
    | inr (t, at) ↦ inr (t, at, ground (arith, h, other, at, ==_iff t.client.id cid))
  ]
]

-- The id that an action writes at is new or passed.
IsFreeOrOwn : Action → ℤ → Request → Server → Type 0
IsFreeOrOwn add_action cid r s = Unit
IsFreeOrOwn edit_action cid r s = IsOwn (get_int_no_err r (codes "id")) cid s.db
IsFreeOrOwn stop_action cid r s = IsOwn (get_int_no_err r (codes "id")) cid s.db
IsFreeOrOwn del_action cid r s = IsOwn (get_int_no_err r (codes "id")) cid s.db
IsFreeOrOwn start_action cid r s = IsOwn (get_int_no_err r (codes "id")) cid s.db

passed-IsFreeOrOwn :
    (a : Action) (cid : ℤ) (r : Request) (s : Server)
    → check_user_auth (codes "index") (action_name a) (get_int_no_err r (codes "id")) cid s.db
      ≡ true
    → IsFreeOrOwn a cid r s
unfolding IsFreeOrOwn check_user_auth beq_text contains has_prefix
passed-IsFreeOrOwn add_action cid r s h = tt
passed-IsFreeOrOwn edit_action cid r s h = belongs-IsOwn (get_int_no_err r (codes "id")) cid s.db h
passed-IsFreeOrOwn stop_action cid r s h = belongs-IsOwn (get_int_no_err r (codes "id")) cid s.db h
passed-IsFreeOrOwn del_action cid r s h = belongs-IsOwn (get_int_no_err r (codes "id")) cid s.db h
passed-IsFreeOrOwn start_action cid r s h = belongs-IsOwn (get_int_no_err r (codes "id")) cid s.db h

-- A tunnel of another client is not at that id.
IsOwn-ne :
    (id cid k : ℤ) (t : Tunnel) (db : JsonDb)
    → IsOwn id cid db
    → load (pos 0) db.tasks ≡ none
    → load k db.tasks ≡ some t
    → t.client.id ≢ cid
    → k ≢ id
IsOwn-ne id cid k t db (inl zero_id) none_zero at other same =
    ground (arith, none_zero, at, same ∙ zero_id)
IsOwn-ne id cid k t db (inr (u, own, owner)) none_zero at other same =
    let twice : some t ≡ some u = sym at ∙ (ap (λ i. load i db.tasks) same ∙ own) in
    other (ap (λ v. v.client.id) (some_inj twice) ∙ owner)

module _ (codec : Codec) (e : Env) (fuel : ℕ) (draws : List ℤ) (now : Text) where
  place-ne :
      (a : Action) (cid k : ℤ) (r : Request) (s : Server) (t : Tunnel)
      → IsFreeOrOwn a cid r s
      → load (pos 0) s.db.tasks ≡ none
      → load (get_task_id s.db).1 s.db.tasks ≡ none
      → load k s.db.tasks ≡ some t
      → t.client.id ≢ cid
      → k ≢ place codec e fuel draws now a r s
  unfolding IsFreeOrOwn
  place-ne add_action cid k r s t h none_zero fresh at other same = ground (arith, fresh, at, same)
  place-ne edit_action cid k r s t h none_zero fresh at other same =
      IsOwn-ne (get_int_no_err r (codes "id")) cid k t s.db h none_zero at other same
  place-ne stop_action cid k r s t h none_zero fresh at other same =
      IsOwn-ne (get_int_no_err r (codes "id")) cid k t s.db h none_zero at other same
  place-ne del_action cid k r s t h none_zero fresh at other same =
      IsOwn-ne (get_int_no_err r (codes "id")) cid k t s.db h none_zero at other same
  place-ne start_action cid k r s t h none_zero fresh at other same =
      IsOwn-ne (get_int_no_err r (codes "id")) cid k t s.db h none_zero at other same

  module _ (md5 : Text → Text) (clock : ℤ) (auth_key random : Text) where
    -- When a request that is not an administrator's, in the session of the user of a client, is let
    -- through to an action that adds, edits, stops, deletes or starts a tunnel and the action returns,
    -- every tunnel of another client is in the table as before, in all its fields. Every tunnel of the
    -- table is under its id, and neither 0 nor the id that is given next is the id of one.
    pub act-Spares :
        (a : Action) (cid : ℤ) (r r' : Request) (ses ses' : Session) (s s' : Server)
        (answer : Answer)
        → ses.client_id ≡ some cid
        → prepare md5 clock auth_key random (codes "index") (action_name a) ses r s.db
          ≡ runs ses' r' false
        → HasIds s
        → load (pos 0) s.db.tasks ≡ none
        → load (get_task_id s.db).1 s.db.tasks ≡ none
        → act codec e fuel draws now a r' s ≡ some (s', answer)
        → (k : ℤ) (t : Tunnel) → load k s.db.tasks ≡ some t
        → t.client.id ≢ cid
        → load k s'.db.tasks ≡ some t
    unfolding Passed
    act-Spares a cid r r' ses ses' s s' answer user lets ids none_zero fresh result k t at other =
        let passed =
          subst (λ o. Passed md5 clock auth_key random (codes "index") (action_name a) o r' s.db)
            user
            (prepare-Passed md5 clock auth_key random (codes "index") (action_name a) r r' s.db ses
              ses' lets) in
        let only =
          subst (OnlyAtAnswer (place codec e fuel draws now a r' s) s.db.tasks) result
            (act-OnlyAt codec e fuel draws now a r' s ids) in
        only k
          (place-ne a cid k r' s t (passed-IsFreeOrOwn a cid r' s passed) none_zero fresh at other)
        ∙ at
