-- ===== src/File/Conns.antt =====
-- lib/file/obj.go: the connection counters of a client and of a port. `CutConn` takes a connection
-- and `AddConn` gives it back; the counter is an `int32`, and `int(s.NowConn)` is its value. `GetConn`
-- takes no lock between its test and its count: `get_conn` is the call that no other one comes between,
-- and Racing has the two as steps of many connections.
pub mod Quota
pub mod Racing
use nps_socks.File.Obj.{Client, PortConfig}
use nps_socks.Prelude.{
  Bool, true, false, ◌||◌, ℤ, pos, negsuc, ◌+ℤ◌, wrap32, ltb_ℤ, int_eq, ◌==◌, if◌then◌else◌,
}

unfoldable pub cut_conn : Client → Client
cut_conn s = record s { now_conn = wrap32 (s.now_conn +ℤ pos 1) }

unfoldable pub cut_conn_port : PortConfig → PortConfig
cut_conn_port s = record s { now_conn = wrap32 (s.now_conn +ℤ pos 1) }

unfoldable pub add_conn : Client → Client
add_conn s = record s { now_conn = wrap32 (s.now_conn +ℤ negsuc 0) }

unfoldable pub add_conn_port : PortConfig → PortConfig
add_conn_port s = record s { now_conn = wrap32 (s.now_conn +ℤ negsuc 0) }

-- The test of `GetConn`.
abbrev pub may_connect : ℤ → ℤ → Bool
may_connect max_conn now_conn = max_conn == pos 0 || ltb_ℤ now_conn max_conn

unfoldable pub get_conn : Client → Client × Bool
unfolding cut_conn
get_conn s = if may_connect s.max_conn s.now_conn then (cut_conn s, true) else (s, false)

unfoldable pub get_conn_port : PortConfig → PortConfig × Bool
unfolding cut_conn_port
get_conn_port s = if may_connect s.max_conn s.now_conn then (cut_conn_port s, true) else (s, false)
