-- ===== src/Web/Access.antt =====
-- web/controllers/base.go, `Prepare` and `CheckUserAuth`: which requests reach their action. The names of
-- the controller and the action are in lower case. After a redirect beego runs no action.
use nps_socks.Web.Request.{Request, set_param, get_escape_string, get_int_no_err}
use nps_socks.File.JsonDb.{JsonDb}
use nps_socks.File.Obj.{Tunnel, Host}
use nps_socks.Strconv.{itoa}
use nps_socks.SyncMap.{load, Table}
use nps_socks.Prelude.{
  Text, Bool, Option, ℤ, codes, text_eq, int_eq, ◌==◌, ◌&&◌, not, pos, negsuc, leb_ℤ, ◌-ℤ◌, wrap64,
  contains, none, some, true, false, [], if◌then◌else◌, ◌||◌, ◌++◌,
}

pub record Session : Type 0 where
  pub auth : Bool
  pub is_admin : Option Bool
  pub client_id : Option ℤ
  pub username : Option Text

-- `crashed` is a failed type assertion; `runs` has the session, the request and whether the page is
-- shown to an administrator.
pub data Verdict : Type 0 where
  redirected stopped crashed : Verdict
  runs : Session → Request → Bool → Verdict

-- `v.Client.Id == s.GetSession("clientId").(int)` for the entry of an id
abbrev pub belongs : {V : Type 0} → (V → ℤ) → ℤ → ℤ → Table V → Bool
belongs owner cid id m = elim (load id m) [ none ↦ false | some v ↦ owner v == cid ]

-- Whether CheckUserAuth lets the user of a client go on.
unfoldable pub check_user_auth : Text → Text → ℤ → ℤ → JsonDb → Bool
check_user_auth controller action id cid db =
    if controller == codes "client"
    then not (action == codes "add") && (id == pos 0 || id == cid)
    else if controller == codes "index"
    then (id == pos 0
        || (if contains action (codes "h")
            then belongs (λ (h : Host). h.client.id) cid id db.hosts
            else belongs (λ (t : Tunnel). t.client.id) cid id db.tasks))
    else true

-- The key of the configuration, or 64 random characters if there is none; `now` is the clock.
module _ (md5 : Text → Text) (now : ℤ) (auth_key random : Text) where
  abbrev pub config_key : Text
  config_key = if auth_key == [] then random else auth_key

  abbrev pub is_recent : ℤ → Bool
  is_recent timestamp =
      let age = wrap64 (now -ℤ timestamp) in leb_ℤ (negsuc 19) age && leb_ℤ age (pos 20)

  -- A request signed with the key.
  unfoldable pub is_signed : Request → Bool
  is_signed r =
      let md5_key = get_escape_string r (codes "auth_key") in
      let timestamp = get_int_no_err r (codes "timestamp") in
      not (md5_key == []) && (is_recent timestamp && md5 (config_key ++ itoa timestamp) == md5_key)

  abbrev pub user_runs : Text → Text → Request → JsonDb → Session → Option ℤ → Verdict
  user_runs controller action r db ses none = crashed
  user_runs controller action r db ses (some cid) =
      let r' = set_param (codes "client_id") (itoa cid) r in
      if check_user_auth controller action (get_int_no_err r' (codes "id")) cid db
      then runs ses r' false
      else stopped

  abbrev pub session_runs : Text → Text → Request → JsonDb → Session → Option Bool → Verdict
  session_runs controller action r db ses none = runs ses r true
  session_runs controller action r db ses (some true) = runs ses r true
  session_runs controller action r db ses (some false) =
      user_runs controller action r db ses ses.client_id

  unfoldable pub prepare : Text → Text → Session → Request → JsonDb → Verdict
  unfolding is_signed check_user_auth
  prepare controller action ses r db =
      if is_signed r
      then runs (record ses { is_admin = some true }) r true
      else if not ses.auth
      then redirected
      else session_runs controller action r db ses ses.is_admin
