-- ===== src/File/Clients.antt =====
-- lib/file/db.go: the clients. MD5 and the random keys of `crypt.GetVkey` are parameters: the keys
-- come as the list of the values that the successive calls return.
pub mod Identity
pub mod Keys
pub mod Reset
pub mod Tables
use nps_socks.Common.Addr.{get_ip_by_addr}
use nps_socks.Common.Arrays.{get_int_no_err_by_str}
use nps_socks.File.JsonDb.{Codec, JsonDb, get_client, get_client_id, store_clients_to_json_file}
use nps_socks.File.Obj.{Flow, empty_flow, Client}
use nps_socks.File.Paging.{Page, first_page, turn_page}
use nps_socks.Prelude.{
  ℕ, Bool, true, false, not, ◌&&◌, ◌||◌, Option, none, some, List, [], ◌∷◌, ◌++◌, map, ℤ, pos,
  wrap64, scale, Text, codes, contains, text_eq, int_eq, ◌==◌, any, find, ltb_ℤ, leb_ℤ,
  if◌then◌else◌,
}
use nps_socks.Rate.{Rate, new_rate, start}
use nps_socks.SyncMap.{Table, load, store, delete, values, keys}

-- No client of another id has the key.
unfoldable pub verify_vkey : Text → ℤ → JsonDb → Bool
verify_vkey vkey id s = not (any (λ v. v.verify_key == vkey && not (v.id == id)) (values s.clients))

unfoldable pub verify_user_name : Text → ℤ → JsonDb → Bool
verify_user_name username id s =
    not (any (λ v. v.web_user_name == username && not (v.id == id)) (values s.clients))

pub data Refusal : Type 0 where
  username_duplicate vkey_duplicate : Refusal

-- `no_more_keys`: the list of random keys ended before one was free.
pub data Added : Type 0 where
  added : JsonDb → Client → Added
  refused : Refusal → Added
  no_more_keys : Added

abbrev pub rate_of : ℤ → Option Rate → Rate
rate_of rate_limit none = new_rate (wrap64 (scale 1024 rate_limit))
rate_of rate_limit (some r) = r

-- The bucket of a client that is added, started.
unfoldable pub with_rate : Client → Client
with_rate c =
    if c.rate_limit == pos 0
    then record c { rate = some (start (new_rate (pos 16777216))) }
    else record c { rate = some (start (rate_of c.rate_limit c.rate)) }

-- The loop from `reset`, once the key is generated.
unfoldable pub with_new_key : JsonDb → List Text → Client → Option Client
unfolding with_rate verify_vkey
with_new_key s [] c = none
with_new_key s (k ∷ ks) c =
    let c' = with_rate (record c { verify_key = k }) in
    let rest = with_new_key s ks c' in if verify_vkey k c.id s then some c' else rest

abbrev pub flow_or_new : Option Flow → Flow
flow_or_new none = empty_flow
flow_or_new (some f) = f

module _ (codec : Codec) where
  abbrev put_client : JsonDb → Client → Added
  put_client s c =
      let c' = record c { flow = some (flow_or_new c.flow) } in
      added (store_clients_to_json_file codec (record s { clients = store c'.id c' s.clients })) c'

  -- From `if c.Id == 0` on.
  abbrev finish : JsonDb → Client → Added
  finish s c =
      if c.id == pos 0
      then (let (s', id) = get_client_id s in put_client s' (record c { id = id }))
      else put_client s c

  abbrev finish_key : JsonDb → Option Client → Added
  finish_key s none = no_more_keys
  finish_key s (some c) = finish s c

  unfoldable pub new_client : List Text → Client → JsonDb → Added
  unfolding verify_user_name with_new_key verify_vkey with_rate get_client_id
      store_clients_to_json_file
  new_client random c s =
      if not (c.web_user_name == []) && not (verify_user_name c.web_user_name c.id s)
      then refused username_duplicate
      else if c.verify_key == []
      then finish_key s (with_new_key s random c)
      else if verify_vkey c.verify_key c.id s
      then finish s (with_rate c)
      else refused vkey_duplicate

  unfoldable pub del_client : ℤ → JsonDb → JsonDb
  unfolding store_clients_to_json_file
  del_client id s = store_clients_to_json_file codec (record s { clients = delete id s.clients })

-- The table is not written to its file.
unfoldable pub update_client : Client → JsonDb → JsonDb
update_client t s =
    let t' =
      if t.rate_limit == pos 0
      then record t { rate = some (start (new_rate (pos 16777216))) }
      else t in
    record s { clients = store t.id t' s.clients }

unfoldable pub is_pub_client : ℤ → JsonDb → Bool
unfolding get_client
is_pub_client id s = elim (get_client id s) [ some client ↦ client.no_display | none ↦ false ]

module _ (md5 : Text → Text) where
  -- `common.Getverifyval(v.VerifyKey) == vKey && v.Status`
  abbrev pub opens : Text → Client → Bool
  opens v_key v = md5 v.verify_key == v_key && v.status

  -- The first client that passes the test gets the address.
  abbrev mark_addr : Text → Text → Table Client → Table Client
  mark_addr v_key ip [] = []
  mark_addr v_key ip ((k, v) ∷ m) =
      if opens v_key v then (k, record v { addr = ip }) ∷ m else (k, v) ∷ mark_addr v_key ip m

  abbrev id_of : Option Client → Option ℤ
  id_of none = none
  id_of (some v) = some v.id

  -- `none` is the error "not found".
  unfoldable pub get_id_by_verify_key : Text → Text → JsonDb → JsonDb × Option ℤ
  get_id_by_verify_key v_key addr s = (
    record s { clients = mark_addr v_key (get_ip_by_addr addr) s.clients },
    id_of (find (opens v_key) (values s.clients)),
  )

  unfoldable pub get_client_id_by_vkey : Text → JsonDb → Option ℤ
  get_client_id_by_vkey vkey s = id_of (find (λ v. md5 v.verify_key == vkey) (values s.clients))
