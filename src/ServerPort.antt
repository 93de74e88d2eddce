-- ===== src/ServerPort.antt =====
-- server/tool/utils.go: which ports the server may open, and the search for one.
use nps_socks.Common.Arrays.{in_int_arr}
use nps_socks.Common.Ports.{get_ports}
use nps_socks.Prelude.{
  ◌∷◌, text_eq, int_eq, Text, ℤ, List, Bool, Option, ◌≡◌, if◌then◌else◌, ◌==◌, ltb_ℤ, none, true,
  some, codes, pos, ◌⊎◌, [], ◌||◌, ◌≤ℤ◌, false, Bool-cases, not, inl, length, arith, ◌&&◌, inr,
  nat_eq,
}

-- `allow_ports` of the configuration.
unfoldable pub init_allow_port : Text → List ℤ
init_allow_port p = get_ports p

-- `udp_free` and `tcp_free` are TestUdpPort and TestTcpPort, which try to listen.
module _ (udp_free tcp_free : ℤ → Bool) (ports : List ℤ) where
  unfoldable pub test_server_port : ℤ → Text → Bool
  test_server_port p m =
      if m == codes "p2p" || m == codes "secret"
      then true
      else if ltb_ℤ (pos 65535) p || ltb_ℤ p (pos 0)
      then false
      else if not (length ports == 0) && not (in_int_arr ports p)
      then false
      else if m == codes "udp"
      then udp_free p
      else tcp_free p

  abbrev at_least_1024 : ℤ → ℤ
  at_least_1024 n = if ltb_ℤ n (pos 1024) then pos 1024 else n

  -- The draws are what `rand.Intn(65535)` returns; `none` is that they ended before a port was found.
  unfoldable pub generate_server_port : List ℤ → Text → Option ℤ
  unfolding test_server_port
  generate_server_port [] m = none
  generate_server_port (n ∷ draws) m =
      let rest = generate_server_port draws m in
      if test_server_port (at_least_1024 n) m then some (at_least_1024 n) else rest

  -- The port of a draw that the server may open.
  abbrev pub HasPort : List ℤ → Text → Type 0
  HasPort [] m = ⊥
  HasPort (n ∷ draws) m = (test_server_port (at_least_1024 n) m ≡ true) ⊎ HasPort draws m

  -- If a draw, raised to 1024, is a port that the server may open for the mode, a port is generated,
  -- and it is one that the server may open and at least 1024.
  pub generate_server_port-test_server_port :
      (draws : List ℤ) (m : Text)
      → HasPort draws m
      → (p : ℤ) × (generate_server_port draws m ≡ some p)
        × (test_server_port p m ≡ true)
        × (pos 1024 ≤ℤ p)
  unfolding generate_server_port
  generate_server_port-test_server_port [] m h = absurd h
  generate_server_port-test_server_port (n ∷ draws) m h =
      elim (Bool-cases (test_server_port (at_least_1024 n) m)) [
        | inl ok ↦ (at_least_1024 n, rw ok, ok, ground arith)
        | inr taken ↦
            let later : HasPort draws m = elim h [
              | inl ok ↦ absurd (ground (arith, ok, taken))
              | inr more ↦ more
            ] in
            rw taken (generate_server_port-test_server_port draws m later)
      ]
