-- ===== src/Bridge/GetConfig/Takeover.antt =====
-- bridge/bridge.go, `getConfig`: a client that a peer sends takes the place of the one with its id.
use nps_socks.SyncMap.{load, store, load-store}
use nps_socks.Net.{Chunks}
use nps_socks.File.Obj.{Client}
use nps_socks.Bridge.Session.{Turn, Outside, goes, Session, stops, fails, panics}
use nps_socks.Bridge.GetConfig.{new_conf, draw}
use nps_socks.File.JsonDb.{Codec, JsonDb, store_clients_to_json_file}
use nps_socks.Prelude.{
  ℤ, Text, ◌==◌, ◌≡◌, pos, false, some, [], true, ==_iff, int_eq, text_eq, arith, List, ◌∙◌, refl,
}
use nps_socks.Wire.{filled, get_info}
use nps_socks.File.Clients.{new_client, with_rate, added, verify_vkey, flow_or_new}

-- What NEW_CONF does for the client of the peer: it goes on with a client of the id that was sent, which
-- is in the table under that id, with the key that was sent.
abbrev pub TakesPlace : ℤ → Text → Turn → Type 0
TakesPlace id key (goes cs s c) =
    (c.id ≡ id) × (c.verify_key ≡ key) × (load id s.db.clients ≡ some c)
TakesPlace id key (stops cs s c) = ⊥
TakesPlace id key (fails cs s c) = ⊥
TakesPlace id key panics = ⊥

with_rate_keeps :
    (c : Client) → ((with_rate c).id ≡ c.id) × ((with_rate c).verify_key ≡ c.verify_key)
unfolding with_rate
with_rate_keeps c = ground arith

-- A client with an id and a key of its own is stored under that id.
new_client-stored :
    (codec : Codec) (random : List Text) (c : Client) (s : JsonDb)
    → (c.id == pos 0) ≡ false
    → (c.web_user_name == []) ≡ true
    → (c.verify_key == []) ≡ false
    → verify_vkey c.verify_key c.id s ≡ true
    → (s' : JsonDb) × (c' : Client) × (new_client codec random c s ≡ added s' c')
      × (c'.id ≡ c.id)
      × (c'.verify_key ≡ c.verify_key)
      × (load c.id s'.clients ≡ some c')
unfolding new_client store_clients_to_json_file
new_client-stored codec random c s set nameless given free =
    let (i, k) = with_rate_keeps c in
    let c' = record (with_rate c) { flow = some (flow_or_new (with_rate c).flow) } in
    let s' = store_clients_to_json_file codec (record s { clients = store c'.id c' s.clients }) in
    let set' : ((with_rate c).id == pos 0) ≡ false = rw i set in
    (
      s',
      c',
      rw (new_client, nameless, given, free, set') refl,
      i,
      k,
      load-store c'.id c.id c' s.clients ∙ ground (arith, ==_iff c'.id c.id, i),
    )

-- A peer that sends a client with an id other than 0, no user name for the web, and a key that no client
-- of another id has, becomes that client: whatever client the table held under the id is replaced.
pub new_conf-TakesPlace :
    (o : Outside) (cs : Chunks) (s : Session) (d : Client)
    → (get_info o.fill_client cs).1 ≡ filled (some d)
    → (d.id == pos 0) ≡ false
    → d.web_user_name ≡ []
    → (d.verify_key == []) ≡ false
    → verify_vkey d.verify_key d.id s.db ≡ true
    → TakesPlace d.id d.verify_key (new_conf o cs s)
unfolding new_conf
new_conf-TakesPlace o cs s d read set nameless given free =
    let d' = record d {
      no_store = true;
      status = true;
      flow = some (flow_or_new d.flow);
      no_display = false;
    } in
    let (s', c, done, i, k, at) =
      new_client-stored o.codec (draw s.random).0 d' s.db set
        ((==_iff d.web_user_name []).1 nameless) given free in
    rw (new_conf, read, done) (i, k, at)
