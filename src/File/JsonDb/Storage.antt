-- ===== src/File/JsonDb/Storage.antt =====
-- lib/file/file.go: what is written to a table's file is what is read back from it.
use nps_socks.SyncMap.{load, load-store, Table, Distinct, Keyed, values}
use nps_socks.File.JsonDb.{
  Json, separator, store_sync_map, rate_for, Codec, load_client, JsonDb, each,
  load_client_from_json_file, store_clients_to_json_file,
}
use nps_socks.File.Obj.{Client}
use nps_socks.Prelude.{
  not, ◌∙◌, int_eq, ◌==◌, ==_iff, ◌≡◌, ◌≢◌, refl, Bool, Option, none, some, List, [], ◌∷◌, ◌++◌,
  map, pos, Text, split_text, split_from, All, arith, if◌then◌else◌, select, ℤ, ap,
}
use nps_socks.Rate.{new_rate, start}

-- What the program relies on of `encoding/json` at one type: every value is written on one line, is
-- read back up to the fields that JSON drops, and an empty text is no value.
pub record Reads (V : Type 0) (json : Json V) (kept : V → V) : Type 0 where
  pub text : V → Text
  pub marshals : (v : V) → json.marshal v ≡ some (text v)
  pub one_line : (v : V) → All (λ c. c ≢ 10) (text v)
  pub back : (v : V) → json.unmarshal (text v) ≡ some (kept v)
  pub rejects_empty : json.unmarshal [] ≡ none

-- A line before the separator is one piece of the split.
split-separator :
    (line rest : Text)
    → All (λ c. c ≢ 10) line
    → split_text (line ++ (separator ++ rest)) separator ≡ line ∷ split_text rest separator
unfolding split_from
split-separator [] rest h = refl
split-separator (x ∷ line) rest h = ground (arith, split-separator line rest h.1)

module _ {V : Type 0} (no_store : V → Bool) (json : Json V) (kept : V → V)
    (r : Reads V json kept) where
  -- The pieces of the file are the lines of the stored values, and an empty one.
  pub split-store_sync_map :
      (m : List V)
      → split_text (store_sync_map no_store json m) separator
        ≡ map r.text (select (λ v. not (no_store v)) m) ++ [] ∷ []
  unfolding store_sync_map split_from
  split-store_sync_map [] = refl
  split-store_sync_map (v ∷ m) =
      let rest = store_sync_map no_store json m in
      ground (
        arith,
        r.marshals v,
        split-separator (r.text v) rest (r.one_line v),
        split-store_sync_map m,
      )

-- What a client is after a restart.
abbrev pub reloaded : Client → Client
reloaded c = record c { rate = some (start (new_rate (rate_for c.rate_limit))); now_conn = pos 0 }

abbrev pub after_restart : (Client → Client) → Option Client → Option Client
after_restart kept none = none
after_restart kept (some c) = if c.no_store then none else some (reloaded (kept c))

-- What the table holds at a key after the values of a file were read over it.
over : (Client → Client) → Option Client → Option Client → Option Client
over kept none old = old
over kept (some c) old = if c.no_store then old else some (reloaded (kept c))

module _ (codec : Codec) (kept : Client → Client) (r : Reads Client codec.clients kept)
    (same_id : (c : Client) → (kept c).id ≡ c.id) where
  load_client-text :
      (c : Client) (k : ℤ) (s : JsonDb)
      → load k (load_client codec (r.text c) s).clients
        ≡ (if c.id == k then some (reloaded (kept c)) else load k s.clients)
  unfolding load_client
  load_client-text c k s =
      rw (r.back c, load_client)
        (load-store (kept c).id k (reloaded (kept c)) s.clients ∙ rw (same_id c))

  abbrev lines : List Client → List Text
  lines m = map r.text (select (λ c. not c.no_store) m) ++ [] ∷ []

  load-each :
      (k : ℤ) (m : Table Client) (s : JsonDb)
      → Distinct m
      → Keyed (λ c. c.id) m
      → load k (each (load_client codec) (lines (values m)) s).clients
        ≡ over kept (load k m) (load k s.clients)
  unfolding load over load_client
  load-each k [] s d h = rw (r.rejects_empty, load_client)
  load-each k ((j, c) ∷ m) s d h = ground (
    arith,
    load-each k m s d.1 h.1,
    load-each k m (load_client codec (r.text c) s) d.1 h.1,
    load_client-text c k s,
    ==_iff j k,
  )

  -- After a restart the table of clients holds exactly the clients that were to be stored, each
  -- under its id, as JSON keeps it, with a new running bucket and no connection; the table at the
  -- time of the write has each id once.
  pub load_client_from_json_file-store :
      (d s : JsonDb) (k : ℤ)
      → Distinct d.clients
      → Keyed (λ c. c.id) d.clients
      → s.clients ≡ []
      → s.client_file ≡ (store_clients_to_json_file codec d).client_file
      → load k (load_client_from_json_file codec s).clients ≡ after_restart kept (load k d.clients)
  unfolding load_client_from_json_file store_clients_to_json_file over load
  load_client_from_json_file-store d s k dist keyed fresh written =
      let pieces = split-store_sync_map (λ c. c.no_store) codec.clients kept r (values d.clients) in
      ap (λ t. load k (each (load_client codec) (split_text t separator) s).clients) written
      ∙ ap (λ ps. load k (each (load_client codec) ps s).clients) pieces
      ∙ load-each k d.clients s dist keyed
      ∙ ground (arith, fresh)
