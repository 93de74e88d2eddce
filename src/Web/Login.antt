-- ===== src/Web/Login.antt =====
-- web/controllers/login.go: who is logged in, and the failures that an address has had. Times are in
-- seconds but for the register of the bridge, which is in nanoseconds. `cleans` is whether the random
-- number of `clearIprecord` is 1, and `configured` whether users may log in.
use nps_socks.Web.Access.{Session}
use nps_socks.Common.Addr.{get_ip_by_addr}
use nps_socks.Bridge.{store_ip, hours}
use nps_socks.File.JsonDb.{JsonDb, get_client_id, Codec}
use nps_socks.File.Obj.{Client, make_client}
use nps_socks.File.Clients.{Added, added, refused, no_more_keys, new_client}
use nps_socks.SyncMap.{values}
use nps_socks.Prelude.{
  Text, Bool, Option, ℤ, List, codes, text_eq, ◌==◌, ◌&&◌, ◌||◌, not, pos, leb_ℤ, ◌+ℤ◌, ◌-ℤ◌,
  wrap64, scale, none, some, true, false, if◌then◌else◌, find, ◌∷◌, [],
}

pub record Failures : Type 0 where
  pub has_login_fail_times : ℤ
  pub last_login_time : ℤ

abbrev pub Records : Type 0
Records = List (Text × Failures)

pub record Gate : Type 0 where
  pub session : Session
  pub ip_record : Records
  pub register : List (Text × ℤ)

abbrev pub load_record : Text → Records → Option Failures
load_record ip [] = none
load_record ip ((k, v) ∷ m) = if k == ip then some v else load_record ip m

abbrev pub store_record : Text → Failures → Records → Records
store_record ip v [] = (ip, v) ∷ []
store_record ip v ((k, w) ∷ m) = if k == ip then (ip, v) ∷ m else (k, w) ∷ store_record ip v m

abbrev pub delete_record : Text → Records → Records
delete_record ip [] = []
delete_record ip ((k, v) ∷ m) =
    let rest = delete_record ip m in if k == ip then rest else (k, v) ∷ rest

-- `time.Now().Unix() - v.lastLoginTime.Unix() >= 60`
abbrev pub is_old : ℤ → Failures → Bool
is_old now v = leb_ℤ (pos 60) (wrap64 (now -ℤ v.last_login_time))

abbrev pub clear_ip_record : Bool → ℤ → Records → Records
clear_ip_record cleans now [] = []
clear_ip_record cleans now ((k, v) ∷ m) =
    let rest = clear_ip_record cleans now m in
    if cleans && is_old now v then rest else (k, v) ∷ rest

-- The callback of the loop over the clients: whether it lets the user in.
abbrev pub lets_in : Text → Text → Client → Bool
lets_in username password v =
    v.status
    && (not v.no_display
        && (if v.web_user_name == [] && v.web_password == []
            then username == codes "user" && v.verify_key == password
            else v.web_password == password && v.web_user_name == username))

abbrev pub admin_session : Session → Session
admin_session ses = record ses {
  auth = true;
  is_admin = some true;
  client_id = none;
  username = none;
}

abbrev pub user_session : Client → Session → Session
user_session v ses = record ses {
  auth = true;
  is_admin = some false;
  client_id = some v.id;
  username = some v.web_user_name;
}

module _ (admin_name admin_password : Text) (allows_users cleans explicit : Bool) where
  abbrev pub is_admin_login : Text → Text → Bool
  is_admin_login username password = password == admin_password && username == admin_name

  -- The failures of the address, begun anew after a minute.
  abbrev pub renewed : ℤ → Option Failures → Option Failures
  renewed now none = none
  renewed now (some v) =
      some (if is_old now v then record v { has_login_fail_times = pos 0 } else v)

  abbrev pub put_record : Text → Option Failures → Records → Records
  put_record ip none m = m
  put_record ip (some v) m = store_record ip v m

  abbrev pub is_locked : Option Failures → Bool
  is_locked none = false
  is_locked (some v) = leb_ℤ (pos 10) v.has_login_fail_times

  -- `LoadOrStore` of the first failure, or one more for an explicit login.
  abbrev pub failed_again : ℤ → Option Failures → Failures
  failed_again now none = record { has_login_fail_times = pos 1; last_login_time = now }
  failed_again now (some v) =
      if explicit
      then record {
        has_login_fail_times = wrap64 (v.has_login_fail_times +ℤ pos 1);
        last_login_time = now;
      }
      else v

  -- Two hours, in nanoseconds, from now on.
  abbrev pub until : ℤ → ℤ
  until now = wrap64 (wrap64 (scale 1000000000 now) +ℤ hours (pos 2))

  -- The first client that the loop lets in.
  abbrev pub user_for : Text → Text → JsonDb → Option Client
  user_for username password db =
      if allows_users then find (lets_in username password) (values db.clients) else none

  abbrev pub let_in : Text → ℤ → Gate → Option Client → Gate × Bool
  let_in ip now g (some v) = (
    record g { session = user_session v g.session; ip_record = delete_record ip g.ip_record },
    true,
  )
  let_in ip now g none = (
    record g {
      ip_record = store_record ip (failed_again now (load_record ip g.ip_record)) g.ip_record;
    },
    false,
  )

  -- `ip` is the host of the remote address and `peer` what beego takes for the address of the client.
  unfoldable pub do_login :
      (ip peer username password : Text) (now : ℤ) → JsonDb → Gate → Gate × Bool
  do_login ip peer username password now db g =
      let m = clear_ip_record cleans now g.ip_record in
      let v = renewed now (load_record ip m) in
      let g' = record g { ip_record = put_record ip v m } in
      if is_locked v
      then (g', false)
      else if is_admin_login username password
      then (
        record g' {
          session = admin_session g.session;
          ip_record = delete_record ip g'.ip_record;
          register = store_ip (get_ip_by_addr peer) (until now) g.register;
        },
        true,
      )
      else let_in ip now g' (user_for username password db)

-- `Out` sets `auth` only.
abbrev pub out : Session → Session
out ses = record ses { auth = false }

-- The answer of `Register`, and the client it adds.
pub data Registered : Type 0 where
  form not_allowed check_input no_more_random : Registered
  answered : Bool → Registered

abbrev pub registered : JsonDb → Added → JsonDb × Registered
registered db (added db' c) = (db', answered true)
registered db (refused why) = (db, answered false)
registered db no_more_keys = (db, no_more_random)

abbrev pub registering : Text → Text → ℤ → Client
registering username password id = record (make_client [] false false) {
  id = id;
  web_user_name = username;
  web_password = password;
}

-- `allows` is `allow_user_register`, and `random` the random keys.
unfoldable pub register :
    Codec
    → (allows is_get : Bool) (admin_name username password : Text) → List Text
    → JsonDb
    → JsonDb × Registered
unfolding new_client get_client_id
register codec allows is_get admin_name username password random db =
    let (db', id) = get_client_id db in
    if is_get
    then (db, form)
    else if not allows
    then (db, not_allowed)
    else if username == [] || (password == [] || username == admin_name)
    then (db, check_input)
    else registered db' (new_client codec random (registering username password id) db')
