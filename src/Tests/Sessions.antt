-- ===== src/Tests/Sessions.antt =====
-- `getConfig` of bridge/bridge.go at concrete inputs.
use nps_socks.Bridge.GetConfig.Takeover.{TakesPlace, new_conf-TakesPlace}
use nps_socks.File.Obj.{Client, make_client}
use nps_socks.File.Clients.{get_id_by_verify_key, verify_vkey}
use nps_socks.Bridge.CliProcess.{
  IsLegitimate, shown, cli_process, cli_process-IsLegitimate, type_deal,
}
use nps_socks.Bridge.Session.{Outside, Session}
use nps_socks.Bridge.Tables.{HasSoundTables}
use nps_socks.Strconv.{atoi}
use nps_socks.Common.Ports.{get_ports}
use nps_socks.Net.{read_full, Chunks}
use nps_socks.Wire.{
  read_flag, get_content, get_len, get_short_content, get_short_len_content, get_info, read_len,
}
use nps_socks.Bridge.GetConfig.Panics.{get_config-crashed}
use nps_socks.Bridge.GetConfig.Ends.{EndsSound, get_config-EndsSound}
use nps_socks.SyncMap.{load}
use nps_socks.Prelude.{
  none, [], codes, some, false, ◌∷◌, ◌++◌, ◌≡◌, arith, refl, inr, inl, beq_text, split, Text, pos,
}
use nps_socks.Bridge.GetConfig.{get_config, crashed, new_conf}
use nps_socks.Tests.Db.{alice, ids, office, office-IsSound}
use nps_socks.Tests.Tasks.{calm, tunnel_one}

-- Every content is the same host, client or task.
abbrev fixed : Outside
fixed = record {
  codec = ids;
  fill_host = λ b. none;
  fill_client = λ b. some alice;
  fill_task = λ b. some (record tunnel_one { mode = codes "socks5"; ports = codes "81-82" });
  md5 = λ t. t;
  env = λ id. calm;
}

abbrev fresh : Session
fresh = record {
  db = office;
  bridge = record { client = []; register = []; ip_verify = false };
  run_list = [];
  random = [];
  opened = [];
  out = [];
}

office-HasSoundTables : HasSoundTables office
unfolding load
office-HasSoundTables = record {
  tasks = record { keyed = tt; distinct = tt; unique = λ i j a b p. absurd (ground (arith, p)) };
  hosts = record { keyed = tt; distinct = tt; apart = λ i j a b p. absurd (ground (arith, p)) };
}

get_config-crashed_example : get_config fixed 1 (codes "ho" ∷ codes "st" ∷ []) fresh alice ≡ crashed
get_config-crashed_example =
    get_config-crashed fixed 0 (codes "host") [] (codes "ho" ∷ codes "st" ∷ []) fresh alice
      (inr (inl refl)) (omega arith) refl

get_config-EndsSound_example :
    EndsSound (get_config fixed 10 ((codes "conf" ++ (1 ∷ 0 ∷ 0 ∷ 0 ∷ codes "x")) ∷ []) fresh alice)
get_config-EndsSound_example =
    get_config-EndsSound fixed 10 ((codes "conf" ++ (1 ∷ 0 ∷ 0 ∷ 0 ∷ codes "x")) ∷ []) fresh alice
      (omega arith) office-HasSoundTables

-- A task for two ports of a proxy without targets.
two_ports_crash :
    get_config fixed 9 ((codes "task" ++ (1 ∷ 0 ∷ 0 ∷ 0 ∷ codes "x")) ∷ []) fresh alice ≡ crashed
unfolding get_config read_flag read_full beq_text get_content get_len get_ports split atoi
two_ports_crash = refl

-- The office's only client shows the digest of its key and asks for its tunnel.
abbrev greeting : Chunks
greeting =
    codes "TST"
    ∷ ((4 ∷ 0 ∷ 0 ∷ 0 ∷ codes "0.26") ++ (4 ∷ 0 ∷ 0 ∷ 0 ∷ codes "0.26"))
    ∷ codes "0123456789abcdef0123456789abcdef"
    ∷ codes "chan"
    ∷ []

abbrev digest : Text → Text
digest k = codes "0123456789abcdef0123456789abcdef"

cli_process-IsLegitimate_example :
    IsLegitimate digest
      (codes "0.26")
      (codes "1.2.3.4:5")
      office
      (shown digest (codes "0.26") (codes "1.2.3.4:5") greeting)
      (cli_process digest (codes "0.26") (codes "1.2.3.4:5") greeting office).ending
cli_process-IsLegitimate_example =
    cli_process-IsLegitimate digest (codes "0.26") (codes "1.2.3.4:5") greeting office
      office-IsSound

greeting_deals :
    (cli_process digest (codes "0.26") (codes "1.2.3.4:5") greeting office).ending
    ≡ type_deal (codes "chan") (pos 1) (codes "0.26") []
unfolding cli_process get_short_content read_full get_short_len_content get_id_by_verify_key
    beq_text read_flag
greeting_deals = refl

-- A peer sends a client with the id of the office's only one.
abbrev thief : Client
thief = record (make_client (codes "kt") false false) { id = pos 1 }

abbrev thief_sent : Outside
thief_sent = record fixed { fill_client = λ b. some thief }

new_conf-TakesPlace_example :
    TakesPlace (pos 1) (codes "kt") (new_conf thief_sent ((1 ∷ 0 ∷ 0 ∷ 0 ∷ codes "x") ∷ []) fresh)
unfolding get_info get_content get_len read_full read_len verify_vkey beq_text
new_conf-TakesPlace_example =
    new_conf-TakesPlace thief_sent ((1 ∷ 0 ∷ 0 ∷ 0 ∷ codes "x") ∷ []) fresh thief refl refl refl
      refl refl
