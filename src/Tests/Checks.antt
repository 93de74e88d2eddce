-- ===== src/Tests/Checks.antt =====
-- bridge/bridge.go and server/proxy/base.go at concrete inputs.
use nps_socks.Health.Recovery.{tunnel_health-tunnel_health, Recovers}
use nps_socks.Common.Arrays.{trim_arr}
use nps_socks.Common.Arrays.Laws.{occurrences}
use nps_socks.Prelude.{
  ◌∷◌, text_eq, beq_text, pos, contains, codes, [], has_prefix, ◌≡◌, false, none, trim_space, split,
  refl, true, ℤ, Bool, ◌==◌, int_eq, Text,
}
use nps_socks.Health.{tunnel_health}
use nps_socks.File.Obj.{Client, make_client, Target, Tunnel}
use nps_socks.Tests.Handshake.{task_of}

abbrev two_targets : Target
two_targets = record {
  now_index = pos 0;
  target_str = b'a' ∷ b'\n' ∷ b'b' ∷ [];
  target_arr = none;
  local_proxy = false;
}

abbrev of_client : Text → Tunnel
of_client mode = record (task_of (make_client [] false false)) { mode = mode; target = two_targets }

abbrev down : Tunnel
down = tunnel_health (of_client []).client.id (codes "b") false (of_client (codes "tcp"))

abbrev up : Tunnel
up = tunnel_health (of_client []).client.id (codes "b") true down

tunnel_health-tunnel_health_example :
    Recovers
      (codes "b")
      (codes "a")
      (two_targets, (of_client []).health)
      (down.target, down.health)
      (up.target, up.health)
    × (tunnel_health (of_client []).client.id (codes "b") false (of_client (codes "udp"))
        ≡ of_client (codes "udp"))
unfolding contains has_prefix occurrences beq_text trim_arr trim_space split
tunnel_health-tunnel_health_example =
    tunnel_health-tunnel_health (of_client []).client.id (codes "b") (codes "a")
      (of_client (codes "tcp")) (of_client (codes "udp")) false refl refl refl refl refl

abbrev limited : Client
limited = record (make_client (codes "k") false false) { max_conn = pos 2; now_conn = pos 1 }

abbrev port_2000 : ℤ → Bool
port_2000 p = p == pos 2000
