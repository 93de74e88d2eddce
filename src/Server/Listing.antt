-- ===== src/Server/Listing.antt =====
-- server/server.go: the pages of tunnels, and what a list shows of the clients' connections. The flags that
-- the lists set play no part in what they list.
pub mod Counted
use nps_socks.Bridge.{Bridge, BridgeClient}
use nps_socks.Common.Arrays.{get_int_no_err_by_str}
use nps_socks.Common.BlackList.{lt_text}
use nps_socks.File.JsonDb.{JsonDb}
use nps_socks.File.Listing.{loaded}
use nps_socks.File.Obj.{Client, Host, Tunnel}
use nps_socks.File.Paging.{first_page, turn_pages}
use nps_socks.Server.{Server}
use nps_socks.SyncMap.{each_value, Table, load, keys, store}
use nps_socks.Prelude.{
  ℤ, ℕ, Text, Option, List, Bool, none, some, true, false, [], ◌∷◌, not, ◌&&◌, ◌||◌, ◌==◌, text_eq,
  int_eq, if◌then◌else◌, pos, codes, contains, select, map, ltb_ℤ,
}

-- A stable sort: `less y x` puts `y` in front of `x`.
abbrev pub insert_by {ℓ} : {A : Type ℓ} → (A → A → Bool) → A → List A → List A
insert_by less x [] = x ∷ []
insert_by less x (y ∷ ys) =
    let rest = insert_by less x ys in if less y x then y ∷ rest else x ∷ (y ∷ ys)

abbrev pub sort_by {ℓ} : {A : Type ℓ} → (A → A → Bool) → List A → List A
sort_by less [] = []
sort_by less (x ∷ xs) = insert_by less x (sort_by less xs)

-- `GetMapKeys` of the tunnels, which are not sorted by a field of a flow
abbrev pub get_map_keys {ℓ} : {V : Type ℓ} → Table V → List ℤ
get_map_keys m = sort_by ltb_ℤ (keys m)

abbrev pub lists_tunnel : Text → ℤ → Tunnel → Bool
lists_tunnel type_val client_id v = not (
    (not (type_val == []) && not (v.mode == type_val)
      || (not (client_id == pos 0) && not (v.client.id == client_id)))
    || (type_val == [] && not (client_id == v.client.id)))

abbrev pub finds_tunnel : Text → Tunnel → Bool
finds_tunnel search v =
    search == []
    || (v.id == get_int_no_err_by_str search
        || (v.port == get_int_no_err_by_str search
            || (contains v.password search
                || (contains v.remark search || contains v.target.target_str search))))

-- The order of a field.
abbrev pub less_by : Text → Option (Tunnel → Tunnel → Bool)
less_by field =
    if field == codes "Id"
    then some (λ v w. ltb_ℤ v.id w.id)
    else if field == codes "ClientId"
    then some (λ v w. ltb_ℤ v.client.id w.client.id)
    else if field == codes "Remark"
    then some (λ v w. lt_text v.remark w.remark)
    else if field == codes "Client.VerifyKey"
    then some (λ v w. lt_text v.client.verify_key w.client.verify_key)
    else if field == codes "Target"
    then some (λ v w. lt_text v.target.target_str w.target.target_str)
    else none

abbrev pub sorted_by : Option (Tunnel → Tunnel → Bool) → Bool → List Tunnel → List Tunnel
sorted_by none asc vs = vs
sorted_by (some less) true vs = sort_by less vs
sorted_by (some less) false vs = sort_by (λ v w. less w v) vs

abbrev pub is_there {ℓ} : {V : Type ℓ} → Option V → Bool
is_there none = false
is_there (some v) = true

-- What is listed, in order, before it is cut into pages.
unfoldable pub shown : Text → ℤ → Text → Text → Text → JsonDb → List Tunnel
shown type_val client_id search sort_field order db =
    let all_list =
      sorted_by (less_by sort_field) (order == codes "asc")
        (select (lists_tunnel type_val client_id) (loaded (get_map_keys db.tasks) db.tasks)) in
    select (λ v. lists_tunnel type_val client_id v && finds_tunnel search v)
      (loaded (map (λ v. v.id) all_list) db.tasks)

-- `IsConnect` of the object of a client, which its tunnels and hosts share
abbrev set_connect : ℤ → Bool → Client → Client
set_connect id b c = if c.id == id then record c { is_connect = b } else c

abbrev pub mark_client : ℤ → Bool → JsonDb → JsonDb
mark_client id b db = record db {
  clients = each_value (set_connect id b) db.clients;
  tasks = each_value (λ (t : Tunnel). record t { client = set_connect id b t.client }) db.tasks;
  hosts = each_value (λ (h : Host). record h { client = set_connect id b h.client }) db.hosts;
}

abbrev pub mark_task : ℤ → Bool → JsonDb → JsonDb
mark_task id b db = record db {
  tasks =
      each_value (λ (t : Tunnel). if t.id == id then record t { run_status = b } else t) db.tasks;
}

module _ (bridge : Bridge) where
  abbrev pub is_connect : Client → Bool
  is_connect c = is_there (load c.id bridge.client)

  abbrev pub mark_clients : List Tunnel → JsonDb → JsonDb
  mark_clients [] db = db
  mark_clients (v ∷ vs) db = mark_clients vs (mark_client v.client.id (is_connect v.client) db)

  module _ (s : Server) where
    abbrev pub flagged : Tunnel → Tunnel
    flagged v = record v {
      run_status = is_there (load v.id s.run_list);
      client = record v.client { is_connect = is_connect v.client };
    }

    abbrev pub mark_tasks : List Tunnel → JsonDb → JsonDb
    mark_tasks [] db = db
    mark_tasks (v ∷ vs) db = mark_tasks vs (mark_task v.id (is_there (load v.id s.run_list)) db)

  -- The page, and how many tunnels there are to list.
  unfoldable pub get_tunnel :
      (start room : ℤ) → Text → ℤ → Text → Text → Text → Server → Server × (List Tunnel × ℕ)
  unfolding shown turn_pages
  get_tunnel start room type_val client_id search sort_field order s =
      let vs = shown type_val client_id search sort_field order s.db in
      let page = turn_pages vs (first_page start room) in
      (
        record s { db = mark_tasks s page.list (mark_clients vs s.db) },
        (map (flagged s) page.list, page.cnt),
      )

  -- `dealClientData`: one client, and the object as the tunnels and hosts of the client share it
  abbrev pub client_data : Text → Option BridgeClient → Client → Client
  client_data now none v = record v { is_connect = false }
  client_data now (some c) v = record v {
    is_connect = true;
    last_online_time = now;
    version = c.version;
  }

  abbrev refreshed : Table Client → Client → Client
  refreshed clients c = elim (load c.id clients) [ none ↦ c | some v ↦ v ]

  unfoldable pub deal_client_data : Text → JsonDb → JsonDb
  deal_client_data now db =
      let clients =
        each_value (λ (v : Client). client_data now (load v.id bridge.client) v) db.clients in
      record db {
        clients = clients;
        tasks =
            each_value (λ (t : Tunnel). record t { client = refreshed clients t.client }) db.tasks;
        hosts =
            each_value (λ (h : Host). record h { client = refreshed clients h.client }) db.hosts;
      }
