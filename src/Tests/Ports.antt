-- ===== src/Tests/Ports.antt =====
-- The port multiplexer of lib/pmux and the greeting of client/control.go at concrete inputs.
use nps_socks.Pmux.{PortConn, process, read_conn, http_channel, new_port_conn}
use nps_socks.Pmux.Routing.{process-head, read_conn-read_conn}
use nps_socks.Client.{new_conn, connected}
use nps_socks.Client.Agreement.{Meets, new_conn-cli_process}
use nps_socks.Bridge.CliProcess.{cli_process, type_deal}
use nps_socks.Net.{Chunks}
use nps_socks.Net.Stream.{bytes}
use nps_socks.Prelude.{
  Text, ◌≡◌, ◌++◌, refl, pos, codes, some, false, beq_text, arith, replicate, take, ◌∷◌, [], true,
}
use nps_socks.Tests.Db.{office}
use nps_socks.Pmux.{bytes_to_num}
use nps_socks.Strconv.{atoi}
use nps_socks.Strconv.{itoa}
use nps_socks.Prelude.{has_prefix}
use nps_socks.Net.{read_full}
use nps_socks.Wire.{get_short_len_content}
use nps_socks.File.Clients.{get_id_by_verify_key}

abbrev end_of_line : Text
end_of_line = 13 ∷ 10 ∷ []

-- A request in three chunks.
abbrev request : Chunks
request =
    codes "GE"
    ∷ (codes "T / HTTP/1.1" ++ (end_of_line ++ codes "Ho"))
    ∷ (codes "st: a.com" ++ (end_of_line ++ end_of_line))
    ∷ []

process-head_example :
    (p : PortConn) × (process (λ ch. true) (codes "b.com") 9 request
      ≡ some (some (http_channel (codes "b.com") (codes "Host: a.com"), p)))
    × (p.rs ++ bytes p.conn ≡ bytes request)
    × (p.start ≡ 0)
    × (p.read_more ≡ false)
unfolding beq_text bytes_to_num atoi itoa has_prefix
process-head_example =
    process-head (λ ch. true) (codes "b.com") (codes "GET") (codes " / HTTP/1.1" ∷ [])
      (codes "Host: a.com") end_of_line request 9 refl refl refl ((refl, omega arith), refl, tt)
      (refl, omega arith) refl (omega arith)

abbrev ahead : PortConn
ahead = new_port_conn [] (codes "GET / HTTP/1.1") false

read_conn-read_conn_example :
    ((read_conn 4 ahead).1 ≡ codes "GET ")
    × ((read_conn 4 (read_conn 4 ahead).0).1 ≡ codes "GET ")
    × ((read_conn 4 (read_conn 4 ahead).0).0.start ≡ 8)
read_conn-read_conn_example = read_conn-read_conn 4 ahead refl (omega arith)

-- A digest of 32 bytes.
abbrev digest : Text → Text
digest t = take 32 (t ++ replicate 32 48)

abbrev from_client : Text → Chunks
from_client rest =
    (codes "TST" ++ (4 ∷ 0 ∷ 0 ∷ 0 ∷ codes "0.26"))
    ∷ (4 ∷ 0 ∷ 0 ∷ 0 ∷ codes "v1.0")
    ∷ (digest (codes "ka") ++ rest)
    ∷ []

abbrev from_server : Chunks
from_server = digest (codes "0.26") ∷ codes "sucs" ∷ []

abbrev at_home : Text
at_home = codes "1.1.1.1:1"

alice-Meets :
    Meets digest
      (codes "0.26")
      (codes "v1.0")
      (codes "ka")
      (codes "main")
      at_home
      (from_client (codes "main"))
      from_server
      office
      []
      []
unfolding beq_text new_conn read_full cli_process get_short_len_content get_id_by_verify_key
alice-Meets = record {
  digest = refl;
  digest' = refl;
  short = omega arith;
  short' = omega arith;
  from_client = refl;
  from_server = refl;
}

new_conn-cli_process_example :
    (A B : Chunks) × ((new_conn digest
        (codes "0.26")
        (codes "v1.0")
        (codes "ka")
        (codes "main")
        from_server).ending
      ≡ connected A)
    × (bytes A ≡ [])
    × ((cli_process digest (codes "0.26") at_home (from_client (codes "main")) office).ending
        ≡ type_deal (codes "main") (pos 1) (codes "v1.0") B)
    × (bytes B ≡ [])
unfolding beq_text get_id_by_verify_key
new_conn-cli_process_example =
    new_conn-cli_process digest (codes "0.26") (codes "v1.0") (codes "ka") (codes "main") at_home
      (from_client (codes "main")) from_server office [] [] (pos 1) alice-Meets refl refl
