-- ===== src/Tests/Connections.antt =====
-- The clients of bridge/bridge.go at concrete inputs.
use nps_socks.Bridge.TypeDeal.{type_deal, reads_health, signal_of, signalled, type_deal-main}
use nps_socks.File.JsonDb.{get_client}
use nps_socks.File.Clients.{is_pub_client}
use nps_socks.Bridge.Pings.{pings, load-pings}
use nps_socks.Common.Addr.{get_ip_by_addr}
use nps_socks.Net.{Chunks, read_full}
use nps_socks.SyncMap.{load}
use nps_socks.Prelude.{
  none, pos, some, ◌∷◌, codes, beq_text, [], ◌≡◌, false, ◌==◌, true, ℕ, ◌+ℤ◌, refl, text_eq,
  has_prefix, contains, last_index, count, split, wrap64, scale, ℤ, if◌then◌else◌, int_eq,
}
use nps_socks.Bridge.{
  Bridge, BridgeClient, make_bridge_client, Link, send_link_info, lacks_one, register_ip, opened,
  not_in_list, write_close_of,
}
use nps_socks.Tests.Db.{office}

-- A client with its signal connection, and without its tunnel.
abbrev half_client : BridgeClient
half_client = make_bridge_client none (some 7) none (codes "0.26")

abbrev one_half : Bridge
one_half = record { client = (pos 1, half_client) ∷ []; register = []; ip_verify = true }

load-pings_example :
    (lacks_one half_client ≡ true
      → half_client.retry_time ≡ pos 0
      → (load (pos 1) (pings (λ n t. false) office 2 one_half).client
          ≡ some (record half_client { retry_time = pos 2 }))
        × (load (pos 1) (pings (λ n t. false) office 3 one_half).client ≡ none))
    × ((t c : ℕ)
        → half_client.tunnel ≡ some t
        → half_client.signal ≡ some c
        → (ℕ → false ≡ false)
        → (n : ℕ) → load (pos 1) (pings (λ n t. false) office n one_half).client ≡ some half_client)
unfolding load
load-pings_example = load-pings (λ n t. false) office (pos 1) half_client one_half (refl, tt) refl

abbrev whole : Bridge
whole = record one_half { client = (pos 1, make_bridge_client (some 3) (some 7) none []) ∷ [] }

abbrev web_link : Link
web_link = record {
  conn_type = codes "tcp";
  host = codes "a.com:80";
  crypt = false;
  compress = false;
  local_proxy = false;
  remote_addr = codes "1.2.3.4:999";
  timeout = pos 5000000000;
}

-- One hour is registered from another port of the same address.
abbrev one_hour : Chunks
one_hour = (1 ∷ 0 ∷ 0 ∷ 0 ∷ []) ∷ []

-- Inside the hour the link is sent over the tunnel, and nothing is without a registration.
sent_inside_hour :
    send_link_info
      (λ m. true)
      (λ m. true)
      (pos 2)
      (pos 1)
      web_link
      none
      (register_ip (codes "1.2.3.4:5") (pos 1) one_hour whole)
    ≡ opened 3 true web_link
unfolding send_link_info register_ip get_ip_by_addr load beq_text read_full has_prefix contains
    last_index count split ◌+ℤ◌ wrap64 scale
sent_inside_hour = refl

unregistered :
    send_link_info (λ m. true) (λ m. true) (pos 2) (pos 1) web_link none whole ≡ not_in_list
unfolding send_link_info load beq_text
unregistered = refl

-- The office's client comes back over another connection.
type_deal-main_example :
    (b : Bridge) × (type_deal (λ k. k) (codes "main") 9 0 (pos 1) (codes "0.26") [] office whole
      ≡ reads_health b (write_close_of (signal_of (load (pos 1) whole.client))))
    × ((k : ℤ)
        → load k b.client ≡ (
            if pos 1 == k
            then some (signalled 9 (codes "0.26") (load (pos 1) whole.client))
            else load k whole.client))
unfolding is_pub_client load get_client
type_deal-main_example = type_deal-main (λ k. k) 9 0 (pos 1) (codes "0.26") [] office whole refl
