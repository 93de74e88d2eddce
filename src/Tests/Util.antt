-- ===== src/Tests/Util.antt =====
-- lib/rate, lib/common and the counters of lib/file at concrete inputs.
use nps_socks.File.Conns.Racing.{Crowd}
use nps_socks.Rate.Racing.{Act, looks, takes, reads, adds, acts, fresh, ticks}
use nps_socks.Rate.Racing.Limit.{acts_limit, acts_starves}
use nps_socks.Prelude.{wrap64, ◌+ℤ◌, ◌+◌}
use nps_socks.Prelude.{beq_text}
use nps_socks.Common.Udp.RoundTrip.{IsCanonical, ip4, read-write}
use nps_socks.File.Targets.Turns.{calls, get_random_target_fair}
use nps_socks.File.Targets.{get_random_target, picked}
use nps_socks.File.Obj.{Target, Client, make_client}
use nps_socks.Common.Udp.{IpText, Addr, UdpDatagram, read_udp_datagram, write, received}
use nps_socks.Rate.{get, Event, new_rate, tick, ask}
use nps_socks.Prelude.{◌-ℤ◌}
use nps_socks.Prelude.{
  ◌∷◌, List, ℕ, pos, Text, codes, some, [], ◌≡◌, if◌then◌else◌, ◌≤◌, false, ◌==◌, ◌<◌, ◌*◌, none,
  get_elem?, arith, inl, text_eq, refl,
}

abbrev busy : List Event
busy = tick ∷ ask 3 ∷ tick ∷ ask 4 ∷ ask 9 ∷ []

abbrev two_hosts : List Text
two_hosts = codes "a" ∷ codes "b" ∷ codes "a" ∷ []

-- A table of one address, 127.0.0.1.
abbrev localhost : IpText
localhost = record {
  parse4 = λ h. if h == codes "127.0.0.1" then some (127 ∷ 0 ∷ 0 ∷ 1 ∷ []) else none;
  parse16 = λ h. none;
  show = λ ip. codes "127.0.0.1";
}

abbrev here : Addr
here = record { type = 1; host = codes "127.0.0.1"; port = 8024 }

here-IsCanonical : IsCanonical localhost here
unfolding beq_text
here-IsCanonical = ip4 (127 ∷ 0 ∷ 0 ∷ 1 ∷ []) refl refl refl refl

abbrev packet : UdpDatagram
packet = record { header = record { rsv = 0; frag = 0; addr = some here }; body = 1 ∷ 2 ∷ [] }

read-write_example :
    read_udp_datagram localhost (0 ∷ 0 ∷ 0 ∷ 1 ∷ 127 ∷ 0 ∷ 0 ∷ 1 ∷ 31 ∷ 88 ∷ 1 ∷ 2 ∷ [])
    ≡ received packet
unfolding write beq_text
read-write_example =
    read-write localhost packet here [] refl here-IsCanonical (omega arith) (omega arith)
      (inl (refl, refl)) (0 ∷ 0 ∷ 0 ∷ 1 ∷ 127 ∷ 0 ∷ 0 ∷ 1 ∷ 31 ∷ 88 ∷ 1 ∷ 2 ∷ []) refl (omega arith)

abbrev three_targets : List Text
three_targets = codes "a:1" ∷ codes "b:2" ∷ codes "c:3" ∷ []

abbrev balanced : Target
balanced = record {
  now_index = pos 1;
  target_str = [];
  target_arr = some three_targets;
  local_proxy = false;
}

get_random_target_fair_example :
    (k : ℕ) × (x : Text) × (k < 3)
    × (get_elem? three_targets 0 ≡ some x)
    × ((get_random_target (calls k balanced)).1 ≡ picked x)
get_random_target_fair_example =
    get_random_target_fair three_targets 1 0 balanced refl refl (omega arith) (omega arith)
      (omega arith)

abbrev visitor : Client
visitor = record (make_client (codes "k") false false) { max_conn = pos 2 }

-- One of two places is taken, and two connections come at once.
abbrev crowd : Crowd
crowd = record { client = record visitor { now_conn = pos 1 }; tested = 0; held = 1 }

-- Two callers look at five bytes before either takes them.
abbrev rush : List Act
rush =
    reads
    ∷ (adds ∷ (looks 5 ∷ (looks 5 ∷ (takes 1 ∷ (takes 0 ∷ (looks 1 ∷ (reads ∷ (adds ∷ []))))))))

taken_rush : (acts 2 rush (fresh 5)).taken ≡ 10
unfolding acts wrap64 ◌+ℤ◌ new_rate ◌-ℤ◌
taken_rush = refl

acts_limit_example : (acts 2 rush (fresh 5)).taken ≤ 5 * ticks rush + 1 * 5
acts_limit_example =
    acts_limit 5 1 5 (omega arith) rush (omega arith, (omega arith, (omega arith, tt)))

acts_starves_example :
    get (pos 11) (acts 2 rush (fresh 5)).rate ≡ ((acts 2 rush (fresh 5)).rate, false)
acts_starves_example =
    acts_starves 5 1 5 (omega arith) rush 11 (omega arith, (omega arith, (omega arith, tt)))
      (omega arith)
