-- ===== src/Bridge/Session.antt =====
-- bridge/bridge.go, `getConfig`: the state of a session, and what a message does to it.
use nps_socks.File.Obj.{Client, Host, Tunnel}
use nps_socks.SyncMap.{Table}
use nps_socks.Prelude.{◌++◌, Option, List, ℤ, Text, ◌∷◌, [], int_eq, text_eq, nat_eq}
use nps_socks.Net.{Chunks}
use nps_socks.File.JsonDb.{Codec, JsonDb}
use nps_socks.Bridge.{Bridge}
use nps_socks.Server.{Env, Service}

-- What the session takes from elsewhere: encoding/json, MD5, and the surroundings at the moment when the
-- task of an id is tested. `fill` of a type is what json.Unmarshal leaves behind the nil pointer.
pub record Outside : Type 0 where
  pub codec : Codec
  pub fill_host : Text → Option Host
  pub fill_client : Text → Option Client
  pub fill_task : Text → Option Tunnel
  pub md5 : Text → Text
  pub env : ℤ → Env

-- `random` holds the keys that the successive calls of NewClient draw, `opened` the tasks sent to the
-- server, `out` the bytes written to the client.
pub record Session : Type 0 where
  pub db : JsonDb
  pub bridge : Bridge
  pub run_list : Table (Option Service)
  pub random : List (List Text)
  pub opened : List Tunnel
  pub out : Text

-- After one message: the loop goes on, ends, ends with `fail` set, or the server panics.
pub data Turn : Type 0 where
  goes stops fails : Chunks → Session → Client → Turn
  panics : Turn

-- `WriteAddOk` and `WriteAddFail`
abbrev pub add_ok : Session → Session
add_ok s = record s { out = s.out ++ (1 ∷ []) }

abbrev pub add_fail : Chunks → Session → Client → Turn
add_fail cs s c = fails cs (record s { out = s.out ++ (0 ∷ []) }) c
