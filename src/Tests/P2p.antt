-- ===== src/Tests/P2p.antt =====
-- server/proxy/p2p.go at concrete datagrams.
use nps_socks.Proxy.P2p.{Event, arrives, waits, after, handle_p2p, wait, new_p2p_server}
use nps_socks.Proxy.P2p.Meeting.{after-Matches}
use nps_socks.Proxy.P2p.Honest.{Matches}
use nps_socks.Proxy.P2p.Introduction.{handle_p2p-Met, Met, rounds}
use nps_socks.Prelude.{Text, List, ◌∷◌, [], ◌≡◌, refl, codes, arith, All}
use nps_socks.Prelude.{split_from}
use nps_socks.Prelude.{beq_text}

abbrev visitor : Text
visitor = codes "secret*#*p2pv"

abbrev provider : Text
provider = codes "secret*#*p2pp"

-- A stranger with another password comes between a visitor and its provider; the latest first.
abbrev meeting : List Event
meeting =
    waits 0
    ∷ (arrives (codes "2.2.2.2:2") provider
        ∷ (waits 0
            ∷ (arrives (codes "9.9.9.9:9") (codes "other*#*p2pp")
                ∷ (arrives (codes "1.1.1.1:1") visitor ∷ []))))

sent_meeting :
    (after meeting).sent
    ≡ (codes "1.1.1.1:1", codes "2.2.2.2:2") ∷ ((codes "2.2.2.2:2", codes "1.1.1.1:1") ∷ [])
unfolding wait handle_p2p split_from beq_text
sent_meeting = refl

after-Matches_example : All (Matches meeting) (after meeting).sent
after-Matches_example = after-Matches meeting

handle_p2p-Met_example :
    Met (codes "1.1.1.1:1") (codes "2.2.2.2:2") (codes "secret") new_p2p_server (
      wait 0 (
        handle_p2p
          (codes "2.2.2.2:2")
          provider
          (rounds 19 (handle_p2p (codes "1.1.1.1:1") visitor new_p2p_server))))
unfolding split_from beq_text
handle_p2p-Met_example =
    handle_p2p-Met new_p2p_server 19 (codes "1.1.1.1:1") (codes "2.2.2.2:2") (codes "secret")
      visitor provider refl refl refl refl (omega arith)
