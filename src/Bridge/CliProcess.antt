-- ===== src/Bridge/CliProcess.antt =====
-- bridge/bridge.go, `cliProcess`: the greeting of a client, up to the flag of its connection. The two
-- versions are texts; that of the client is compared with nothing.
use nps_socks.Net.Stream.{bytes-read_full}
use nps_socks.File.Clients.Identity.{get_id_by_verify_key_sound}
use nps_socks.SyncMap.{load}
use nps_socks.File.Clients.{get_id_by_verify_key}
use nps_socks.File.Obj.{Client}
use nps_socks.Net.{Chunks, read_full}
use nps_socks.File.JsonDb.{JsonDb}
use nps_socks.Prelude.{
  Text, ℤ, codes, [], some, ◌++◌, Option, length, Option-cases, none, ◌≡◌, inl, true, inr, ap, sym,
}
use nps_socks.Wire.{get_short_content, get_short_len_content, read_flag, Reply}
use nps_socks.File.Clients.Keys.{IsSound}

-- How the greeting ends: the connection is left as it is, closed, or handed to `typeDeal` with the flag,
-- the id and the version of the client, and what is left to read.
pub data Greeting : Type 0 where
  left_open closed_down : Greeting
  type_deal : Text → ℤ → Text → Chunks → Greeting

pub record Greeted : Type 0 where
  pub db : JsonDb
  pub out : Text
  pub ending : Greeting

module _ (md5 : Text → Text) (version addr : Text) where
  -- `verifyError` and `verifySuccess`
  abbrev pub verify_error : Text
  verify_error = codes "vkey"

  abbrev pub verify_success : Text
  verify_success = codes "sucs"

  abbrev pub flagged : Text → JsonDb → ℤ → Reply Text → Greeted
  flagged vs db id (cs, none) = record {
    db = db;
    out = md5 version ++ verify_success;
    ending = left_open;
  }
  flagged vs db id (cs, some flag) = record {
    db = db;
    out = md5 version ++ verify_success;
    ending = type_deal flag id vs cs;
  }

  abbrev pub verified : Text → Chunks → JsonDb × Option ℤ → Greeted
  verified vs cs (db, none) = record {
    db = db;
    out = md5 version ++ verify_error;
    ending = left_open;
  }
  verified vs cs (db, some id) = flagged vs db id (read_flag cs)

  abbrev pub keyed_by : Text → JsonDb → Reply Text → Greeted
  keyed_by vs db (cs, none) = record { db = db; out = md5 version; ending = closed_down }
  keyed_by vs db (cs, some key) = verified vs cs (get_id_by_verify_key md5 key addr db)

  abbrev pub versioned : JsonDb → Reply Text → Greeted
  versioned db (cs, none) = record { db = db; out = []; ending = closed_down }
  versioned db (cs, some vs) = keyed_by vs db (get_short_content 32 cs)

  abbrev pub tested : JsonDb → Reply Text → Greeted
  tested db (cs, none) = record { db = db; out = []; ending = left_open }
  tested db (cs, some test) = versioned db (get_short_len_content (get_short_len_content cs).0)

  unfoldable pub cli_process : Chunks → JsonDb → Greeted
  cli_process cs db = tested db (get_short_content 3 cs)

  -- What is read where the digest of the key stands.
  abbrev pub shown : Chunks → Option Text
  shown cs =
      (get_short_content 32
        (get_short_len_content (get_short_len_content (get_short_content 3 cs).0).0).0).1

  -- If the connection is handed on, then for an enabled client whose key has the digest that was shown.
  abbrev pub IsLegitimate : JsonDb → Option Text → Greeting → Type 0
  IsLegitimate db key left_open = Unit
  IsLegitimate db key closed_down = Unit
  IsLegitimate db key (type_deal flag id vs cs) =
      (c : Client) × (load id db.clients ≡ some c)
      × (c.status ≡ true)
      × (key ≡ some (md5 c.verify_key))
      × (length flag ≡ 4)

  flagged-IsLegitimate :
      (vs : Text) (db db' : JsonDb) (id : ℤ) (key : Option Text) (cs : Chunks) (c : Client)
      → load id db.clients ≡ some c
      → c.status ≡ true
      → key ≡ some (md5 c.verify_key)
      → IsLegitimate db key (flagged vs db' id (read_flag cs)).ending
  unfolding read_flag
  flagged-IsLegitimate vs db db' id key cs c at up same = elim (Option-cases (read_full 4 cs).1) [
    | inl short ↦ rw short tt
    | inr (flag, hit) ↦ rw hit (c, at, up, same, (bytes-read_full 4 cs flag hit).1)
  ]

  keyed_by-IsLegitimate :
      (vs : Text) (db : JsonDb) (r : Reply Text)
      → IsSound db
      → IsLegitimate db r.1 (keyed_by vs db r).ending
  keyed_by-IsLegitimate vs db (cs, none) h = tt
  keyed_by-IsLegitimate vs db (cs, some key) h =
      elim (Option-cases (get_id_by_verify_key md5 key addr db).1) [
        | inl unknown ↦ rw unknown tt
        | inr (id, known) ↦
            let (c, at, up, same) = get_id_by_verify_key_sound md5 db key addr id h known in
            rw known (
              flagged-IsLegitimate vs db (get_id_by_verify_key md5 key addr db).0 id (some key) cs c
                at up (ap some (sym same)))
      ]

  versioned-IsLegitimate :
      (db : JsonDb) (r : Reply Text)
      → IsSound db
      → IsLegitimate db (get_short_content 32 r.0).1 (versioned db r).ending
  versioned-IsLegitimate db (cs, none) h = tt
  versioned-IsLegitimate db (cs, some vs) h =
      keyed_by-IsLegitimate vs db (get_short_content 32 cs) h

  tested-IsLegitimate :
      (db : JsonDb) (r : Reply Text)
      → IsSound db
      → IsLegitimate db
          (get_short_content 32 (get_short_len_content (get_short_len_content r.0).0).0).1
          (tested db r).ending
  tested-IsLegitimate db (cs, none) h = tt
  tested-IsLegitimate db (cs, some test) h =
      versioned-IsLegitimate db (get_short_len_content (get_short_len_content cs).0) h

  -- Whatever a peer sends, its connection is handed on with the id of a client only if the table has
  -- that client, it is enabled, and its key has the digest that the peer has shown in the 32 bytes
  -- after its two versions; the flag has four bytes. The table of clients is sound.
  pub cli_process-IsLegitimate :
      (cs : Chunks) (db : JsonDb)
      → IsSound db
      → IsLegitimate db (shown cs) (cli_process cs db).ending
  unfolding cli_process
  cli_process-IsLegitimate cs db h = tested-IsLegitimate db (get_short_content 3 cs) h
