-- ===== src/File/Conns/Racing.antt =====
-- lib/file/obj.go: `GetConn` of many connections at once. Each tests the counter and then counts itself,
-- and others may come between.
use nps_socks.File.Conns.{may_connect, cut_conn, add_conn}
use nps_socks.File.Obj.{Client}
use nps_socks.Prelude.{
  ℕ, zero, suc, ◌+◌, ◌≤◌, ◌<◌, ◌≡◌, List, [], ◌∷◌, pos, ltb, ◌&&◌, if◌then◌else◌,
}

-- The steps of a connection: the test of `GetConn`, its `CutConn`, and the `AddConn` at its end.
pub data Move : Type 0 where
  tests counts ends : Move

-- The client, the connections that have passed the test and do not count yet, and those that are open.
pub record Crowd : Type 0 where
  pub client : Client
  pub tested : ℕ
  pub held : ℕ

abbrev counted : ℕ → Crowd → Crowd
counted zero s = s
counted (suc n) s = record s { client = cut_conn s.client; tested = n; held = s.held + 1 }

abbrev ended : ℕ → Crowd → Crowd
ended zero s = s
ended (suc n) s = record s { client = add_conn s.client; held = n }

-- At most `k` connections are between their test and their count.
unfoldable pub move : ℕ → Move → Crowd → Crowd
move k tests s =
    if ltb s.tested k && may_connect s.client.max_conn s.client.now_conn
    then record s { tested = s.tested + 1 }
    else s
move k counts s = counted s.tested s
move k ends s = ended s.held s

unfoldable pub moves : ℕ → List Move → Crowd → Crowd
unfolding move
moves k [] s = s
moves k (e ∷ es) s = moves k es (move k e s)

-- The counter is the number of open connections. With those that have passed the test, they are fewer than
-- the limit and `k` together.
pub record Bounded (m k : ℕ) (s : Crowd) : Type 0 where
  pub now_conn : s.client.now_conn ≡ pos s.held
  pub max_conn : s.client.max_conn ≡ pos m
  pub few : s.tested ≤ k
  pub within : s.held + s.tested < m + k

-- As many tests, or as many counts.
unfoldable pub times : ℕ → Move → List Move
times zero e = []
times (suc n) e = e ∷ times n e
