-- ===== src/Client.antt =====
-- client/control.go, `NewConn` from the first write on: the greeting of a client. The connection, direct or
-- through a proxy, is the bytes that come from the server; its own writes do not fail.
pub mod Agreement
pub mod Checks
pub mod Handshake
use nps_socks.Net.{Chunks}
use nps_socks.Wire.{Reply, get_short_content, write_len_content, read_flag}
use nps_socks.Prelude.{Text, codes, text_eq, ◌==◌, none, some, if◌then◌else◌, ◌++◌}

pub data Dial : Type 0 where
  failed incorrect : Dial
  connected : Chunks → Dial

-- What is written, and how it ends: `incorrect` is that the key was refused.
pub record Dialled : Type 0 where
  pub out : Text
  pub ending : Dial

-- `core` is `version.GetVersion()` and `name` is `version.VERSION`.
module _ (md5 : Text → Text) (core name vkey conn_type : Text) where
  unfoldable pub hello : Text
  unfolding write_len_content
  hello = codes "TST" ++ (write_len_content core ++ write_len_content name)

  -- With the flag of the server.
  abbrev pub told : Reply Text → Dialled
  told (cs, none) = record { out = hello ++ md5 vkey; ending = failed }
  told (cs, some s) =
      if s == codes "vkey"
      then record { out = hello ++ md5 vkey; ending = incorrect }
      else record { out = hello ++ (md5 vkey ++ conn_type); ending = connected cs }

  -- With the version of the server, which is compared to no effect.
  abbrev pub greeted : Reply Text → Dialled
  greeted (cs, none) = record { out = hello; ending = failed }
  greeted (cs, some b) = told (read_flag cs)

  unfoldable pub new_conn : Chunks → Dialled
  unfolding hello get_short_content read_flag
  new_conn cs = greeted (get_short_content 32 cs)
