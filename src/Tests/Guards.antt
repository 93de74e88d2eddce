-- ===== src/Tests/Guards.antt =====
-- The black lists of server/proxy and the checks of client/health.go at concrete inputs.
use nps_socks.Proxy.Deal.{deal_client, new_link, served_of, black, udp_start}
use nps_socks.Proxy.Deal.Black.{deal_client-listed, udp_start-append, listed}
use nps_socks.Client.Checks.{failures_of}
use nps_socks.Client.Checks.View.{rounds, rounds-view, view}
use nps_socks.Bridge.{Bridge, send_link_info}
use nps_socks.File.Obj.{Client}
use nps_socks.Prelude.{
  ℕ, List, Bool, ◌≡◌, refl, pos, codes, none, true, false, beq_text, arith, leb, if◌then◌else◌, [],
  ◌∷◌,
}
use nps_socks.Tests.Db.{alice}
use nps_socks.Common.Arrays.{in_str_arr}
use nps_socks.Common.Addr.{get_ip_by_addr}
use nps_socks.Prelude.{has_prefix}
use nps_socks.Prelude.{contains}
use nps_socks.Prelude.{last_index}
use nps_socks.Prelude.{count}
use nps_socks.Prelude.{split}

abbrev quiet : Bridge
quiet = record { client = []; register = []; ip_verify = false }

abbrev wary : Client
wary = record alice { black_ip_list = codes "9.9.9.9" ∷ codes "1.1.1.1" ∷ [] }

deal_client-listed_example :
    (deal_client
      (λ c. true)
      (λ c. true)
      (pos 0)
      quiet
      (codes "1.1.1.1:9")
      (codes "a:1")
      (codes "tcp")
      false
      none
      none
      wary).served
    ≡ (if listed none wary.black_ip_list (codes "1.1.1.1:9")
        then black
        else (let link = new_link (codes "tcp") (codes "a:1") wary (codes "1.1.1.1:9") false in
            served_of link
              (send_link_info (λ c. true) (λ c. true) (pos 0) wary.id link none quiet)))
deal_client-listed_example =
    deal_client-listed (λ c. true) (λ c. true) (pos 0) quiet (codes "1.1.1.1:9") (codes "a:1")
      (codes "tcp") false none none wary

udp_start-append_example :
    udp_start none wary.black_ip_list (
      (codes "2.2.2.2:5", codes "x")
      ∷ (codes "1.1.1.1:9", codes "y")
      ∷ (codes "2.2.2.2:5", codes "z")
      ∷ [])
    ≡ (codes "2.2.2.2:5", codes "x") ∷ []
unfolding beq_text in_str_arr get_ip_by_addr has_prefix contains last_index count split
udp_start-append_example =
    udp_start-append none wary.black_ip_list ((codes "2.2.2.2:5", codes "x") ∷ [])
      ((codes "2.2.2.2:5", codes "z") ∷ []) (codes "1.1.1.1:9") (codes "y") (refl, tt) refl

abbrev mixed : List Bool
mixed = false ∷ true ∷ false ∷ false ∷ []

rounds-view_example :
    (n : ℕ) × (failures_of (codes "a:1") (rounds (pos 3) (codes "a:1") mixed []).0 ≡ pos n)
    × (view (codes "a:1") (rounds (pos 3) (codes "a:1") mixed []).1 false ≡ leb 3 n)
rounds-view_example = rounds-view 3 (codes "a:1") mixed (omega arith) (omega arith)
