-- ===== src/Tests/Db.antt =====
-- lib/file at concrete inputs.
use nps_socks.File.Clients.Keys
use nps_socks.File.Clients.Keys.{Adds, new_client-Adds}
use nps_socks.File.Clients.Identity.{NoCollision}
use nps_socks.File.JsonDb.Storage.{Reads, reloaded, load_client_from_json_file-store}
use nps_socks.File.JsonDb.{
  Json, Codec, JsonDb, load_client_from_json_file, store_clients_to_json_file,
}
use nps_socks.File.Clients.{refused, no_more_keys, added, new_client, Added}
use nps_socks.SyncMap.{load}
use nps_socks.File.Obj.{Client, make_client}
use nps_socks.Prelude.{
  beq_text, ℤ, ℕ, Text, Option, some, [], pos, ◌∷◌, false, none, codes, replicate, length, negsuc,
  List, ◌≢◌, All, ◌≡◌, if◌then◌else◌, ◌==◌, arith, ap, suc, zero, nat_eq, refl, ==_iff, sym, ◌∙◌,
  int_eq,
}

-- A codec that keeps the id of a client, as a sign and as many letters.
abbrev id_text : ℤ → Text
id_text (pos n) = b'+' ∷ replicate n b'i'
id_text (negsuc n) = b'-' ∷ replicate n b'i'

abbrev bare : ℤ → Client
bare id = record (make_client [] false false) { id = id }

abbrev read_id : Text → Option Client
read_id [] = none
read_id (c ∷ s) = some (bare (if c == b'+' then pos (length s) else negsuc (length s)))

abbrev no_json : {V : Type 0} → Json V
no_json = record { marshal = λ v. none; unmarshal = λ s. none }

abbrev pub ids : Codec
ids = record {
  tunnels = no_json;
  hosts = no_json;
  clients = record { marshal = λ c. some (id_text c.id); unmarshal = read_id };
  globals = no_json;
}

abbrev pub alice : Client
alice = record (make_client (codes "ka") false false) { id = pos 1; web_user_name = codes "alice" }

abbrev pub bob : Client
bob = record (make_client (codes "kb") false false) { id = pos 2 }

abbrev pub empty_db : JsonDb
empty_db = record {
  tasks = [];
  hosts = [];
  clients = [];
  global = none;
  client_increase_id = pos 0;
  task_increase_id = pos 0;
  host_increase_id = pos 0;
  task_file = [];
  host_file = [];
  client_file = [];
  global_file = none;
}

abbrev pub office : JsonDb
office = record empty_db { clients = (pos 1, alice) ∷ []; client_increase_id = pos 1 }

-- The key of an entry in a table of one.
pub only_key {ℓ} : {V : Type ℓ} (j k : ℤ) (v w : V) → load k ((j, v) ∷ []) ≡ some w → j ≡ k
unfolding load
only_key j k v w at = ground (arith, ==_iff j k)

pub office-IsSound : Keys.IsSound office
unfolding load
office-IsSound = record {
  keyed = (refl, tt);
  distinct = (refl, tt);
  no_zero = refl;
  below = λ k c at. rw (← only_key (pos 1) k alice c at) (omega arith);
  unique = λ i j c d p q e. sym (only_key (pos 1) i alice c p) ∙ only_key (pos 1) j alice d q;
}

abbrev newcomer : Client
newcomer = make_client [] false false

-- The first key that is drawn is taken.
abbrev draws : List Text
draws = codes "ka" ∷ codes "kc" ∷ []

abbrev client_of : Added → Client
client_of (added s c) = c
client_of (refused r) = newcomer
client_of no_more_keys = newcomer

abbrev db_of : Added → JsonDb
db_of (added s c) = s
db_of (refused r) = empty_db
db_of no_more_keys = empty_db

abbrev joined : Added
joined = new_client ids draws newcomer office

new_client-Adds_example : Adds ids office (client_of joined) (db_of joined)
unfolding new_client beq_text
new_client-Adds_example =
    new_client-Adds ids draws newcomer office (client_of joined) (db_of joined) office-IsSound
      (λ nz. absurd (nz refl)) (refl, omega arith) refl

alice-NoCollision : NoCollision (λ key. key) alice office
alice-NoCollision = record { apart = λ k d at e. e }

-- Storage.
length-replicate : (n x : ℕ) → length (replicate n x) ≡ n
length-replicate zero x = refl
length-replicate (suc n) x = ap suc (length-replicate n x)

one_line-replicate : (n x : ℕ) → x ≢ 10 → All (λ c. c ≢ 10) (replicate n x)
one_line-replicate zero x h = tt
one_line-replicate (suc n) x h = (h, one_line-replicate n x h)

one_line-id_text : (id : ℤ) → All (λ c. c ≢ 10) (id_text id)
one_line-id_text (pos n) = (omega arith, one_line-replicate n b'i' (omega arith))
one_line-id_text (negsuc n) = (omega arith, one_line-replicate n b'i' (omega arith))

read_id-id_text : (id : ℤ) → read_id (id_text id) ≡ some (bare id)
read_id-id_text (pos n) = ap (λ k. some (bare (pos k))) (length-replicate n b'i')
read_id-id_text (negsuc n) = ap (λ k. some (bare (negsuc k))) (length-replicate n b'i')

abbrev kept : Client → Client
kept c = bare c.id

abbrev ids_reads : Reads Client ids.clients kept
ids_reads = record {
  text = λ c. id_text c.id;
  marshals = λ c. refl;
  one_line = λ c. one_line-id_text c.id;
  back = λ c. read_id-id_text c.id;
  rejects_empty = refl;
}

load_client_from_json_file-store_example :
    load
      (pos 1)
      (load_client_from_json_file ids (record empty_db {
        client_file = (store_clients_to_json_file ids office).client_file;
      })).clients
    ≡ some (reloaded (bare (pos 1)))
unfolding load
load_client_from_json_file-store_example =
    load_client_from_json_file-store ids kept ids_reads (λ c. refl) office
      (record empty_db { client_file = (store_clients_to_json_file ids office).client_file })
      (pos 1) (refl, tt) (refl, tt) refl refl
