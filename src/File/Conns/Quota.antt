-- ===== src/File/Conns/Quota.antt =====
-- The connection quota of lib/file/obj.go over the life of many connections, of which no two are in
-- `GetConn` at once.
use nps_socks.File.Conns.{get_conn, add_conn, get_conn_port, add_conn_port}
use nps_socks.File.Obj.{Client, PortConfig}
use nps_socks.Prelude.{
  ℕ, zero, suc, ◌^◌, ◌≤◌, ◌<◌, ◌≡◌, List, [], ◌∷◌, ℤ, pos, ◌+ℤ◌, wrap32, arith, ltb, if◌then◌else◌,
}

-- A connection arrives, or one that was let in ends.
pub data Use : Type 0 where
  arrive leave : Use

-- The counter's owner and the number of connections that are open.
unfoldable pub use_client : Use → Client × ℕ → Client × ℕ
use_client arrive (c, held) = let (c', ok) = get_conn c in (c', if ok then suc held else held)
use_client leave (c, zero) = (c, zero)
use_client leave (c, suc held) = (add_conn c, held)

unfoldable pub use_port : Use → PortConfig × ℕ → PortConfig × ℕ
use_port arrive (c, held) = let (c', ok) = get_conn_port c in (c', if ok then suc held else held)
use_port leave (c, zero) = (c, zero)
use_port leave (c, suc held) = (add_conn_port c, held)

unfoldable pub uses_client : List Use → Client × ℕ → Client × ℕ
uses_client [] s = s
uses_client (e ∷ es) s = uses_client es (use_client e s)

unfoldable pub uses_port : List Use → PortConfig × ℕ → PortConfig × ℕ
uses_port [] s = s
uses_port (e ∷ es) s = uses_port es (use_port e s)

-- The counter is the number of open connections, and these are at most `m`.
pub record Counts (m held : ℕ) (now max : ℤ) : Type 0 where
  pub now_conn : now ≡ pos held
  pub max_conn : max ≡ pos m
  pub within : held ≤ m

module _ (m : ℕ) (positive : 0 < m) (small : m < 2 ^ 31) where
  Counts-use_client :
      (e : Use) (c : Client) (held : ℕ)
      → Counts m held c.now_conn c.max_conn
      → Counts m
          (use_client e (c, held)).1
          (use_client e (c, held)).0.now_conn
          (use_client e (c, held)).0.max_conn
  unfolding use_client get_conn add_conn ◌+ℤ◌ wrap32
  Counts-use_client arrive c held h = ground arith
  Counts-use_client leave c zero h = ground arith
  Counts-use_client leave c (suc held) h = ground arith

  Counts-use_port :
      (e : Use) (c : PortConfig) (held : ℕ)
      → Counts m held c.now_conn c.max_conn
      → Counts m
          (use_port e (c, held)).1
          (use_port e (c, held)).0.now_conn
          (use_port e (c, held)).0.max_conn
  unfolding use_port get_conn_port add_conn_port ◌+ℤ◌ wrap32
  Counts-use_port arrive c held h = ground arith
  Counts-use_port leave c zero h = ground arith
  Counts-use_port leave c (suc held) h = ground arith

  -- Whatever connections come and go, no two in `GetConn` at once, the counter of a client is the number
  -- of its open connections and never passes a limit between 1 and 2^31 - 1.
  pub Counts-uses_client :
      (es : List Use) (c : Client) (held : ℕ)
      → Counts m held c.now_conn c.max_conn
      → Counts m
          (uses_client es (c, held)).1
          (uses_client es (c, held)).0.now_conn
          (uses_client es (c, held)).0.max_conn
  unfolding uses_client
  Counts-uses_client [] c held h = h
  Counts-uses_client (e ∷ es) c held h =
      let s = use_client e (c, held) in Counts-uses_client es s.0 s.1 (Counts-use_client e c held h)

  -- The same for the counter of a port.
  pub Counts-uses_port :
      (es : List Use) (c : PortConfig) (held : ℕ)
      → Counts m held c.now_conn c.max_conn
      → Counts m
          (uses_port es (c, held)).1
          (uses_port es (c, held)).0.now_conn
          (uses_port es (c, held)).0.max_conn
  unfolding uses_port
  Counts-uses_port [] c held h = h
  Counts-uses_port (e ∷ es) c held h =
      let s = use_port e (c, held) in Counts-uses_port es s.0 s.1 (Counts-use_port e c held h)

  -- A connection is let in exactly when fewer than the limit are open, whatever came before.
  pub get_conn_exact :
      (es : List Use) (c : Client) (held : ℕ)
      → Counts m held c.now_conn c.max_conn
      → (get_conn (uses_client es (c, held)).0).1 ≡ ltb (uses_client es (c, held)).1 m
  unfolding get_conn
  get_conn_exact es c held h =
      let k = Counts-uses_client es c held h in ground (arith, k.now_conn, k.max_conn)
