-- ===== src/Pmux.antt =====
-- lib/pmux/pmux.go, pconn.go and plistener.go: one port for clients, the web manager, HTTP and HTTPS. The
-- first bytes of a connection say where it goes, and are given to its reader again. A channel is modelled
-- by what is sent to it; whether somebody receives before the timer fires is a parameter.
pub mod Reading
pub mod Routing
use nps_socks.Common.Addr.{get_ip_by_addr}
use nps_socks.Net.{Chunks, read, read_full}
use nps_socks.Strconv.{atoi, itoa, value_of}
use nps_socks.Prelude.{
  Text, Bool, Option, ℤ, ℕ, List, codes, text_eq, int_eq, ◌==◌, ◌||◌, ◌+◌, ◌-◌, pos, ltb, leb, none,
  some, true, false, if◌then◌else◌, has_prefix, replace_all, trim_space, take, drop, length, ◌∷◌,
  [], reverse, ◌++◌, suc, zero, nat_eq,
}

-- `common.BytesToNum`: the decimal numbers of the bytes, one after the other, as one number
abbrev pub decimals : Text → Text
decimals [] = []
decimals (b ∷ bs) = itoa (pos b) ++ decimals bs

unfoldable pub bytes_to_num : Text → ℤ
bytes_to_num b = value_of (atoi (decimals b))

abbrev pub is_http : ℤ → Bool
is_http n =
    n == pos 677978
    || (n == pos 686976
        || (n == pos 716984
            || (n == pos 726965
                || (n == pos 798084 || (n == pos 807983 || (n == pos 808585 || n == pos 848265))))))

-- What a `bufio.Reader` holds of a connection.
pub record Reader : Type 0 where
  pub buffered : Text
  pub rest : Chunks

-- The bytes up to the first line feed, with it, and those behind it.
abbrev pub cut_line : Text → Option (Text × Text)
cut_line [] = none
cut_line (c ∷ cs) = elim (cut_line cs) [
  | none ↦ if c == 10 then some (c ∷ [], cs) else none
  | some (l, r) ↦ if c == 10 then some (c ∷ [], cs) else some (c ∷ l, r)
]

-- How `ReadSlice` ends: with a line, with a full buffer, or at the end of the connection.
pub data Slice : Type 0 where
  line full at_end : Slice

abbrev pub buffer_size : ℕ
buffer_size = 4096

pub record Sliced : Type 0 where
  pub slice : Text
  pub end : Slice
  pub reader : Reader

abbrev pub cut : Option (Text × Text) → Chunks → Sliced → Sliced
cut none cs otherwise = otherwise
cut (some (l, r)) cs otherwise = record {
  slice = l;
  end = line;
  reader = record { buffered = r; rest = cs };
}

abbrev pub full_buffer : Text → Chunks → Sliced
full_buffer buf cs = record {
  slice = buf;
  end = full;
  reader = record { buffered = []; rest = cs };
}

abbrev pub ended : Text → Sliced
ended buf = record { slice = buf; end = at_end; reader = record { buffered = []; rest = [] } }

-- `ReadSlice('\\n')` with `buf` in the buffer: a chunk is read into the room that is left.
unfoldable pub read_slice : Text → Chunks → Sliced
read_slice buf [] =
    cut (cut_line buf) [] (if leb buffer_size (length buf) then full_buffer buf [] else ended buf)
read_slice buf (c ∷ cs) =
    let room = buffer_size - length buf in
    let more = read_slice (buf ++ c) cs in
    let whole = buf ++ take room c in
    let over = cut (cut_line whole) (drop room c ∷ cs) (full_buffer whole (drop room c ∷ cs)) in
    cut (cut_line buf) (c ∷ cs) (
      if leb buffer_size (length buf)
      then full_buffer buf (c ∷ cs)
      else if leb (length c) room
      then more
      else over)

abbrev pub reversed_drop_cr : Text → Text
reversed_drop_cr [] = []
reversed_drop_cr (c ∷ cs) = if c == 13 then cs else c ∷ cs

-- A line without its line feed and a carriage return before it.
abbrev pub drop_cr : Text → Text
drop_cr l = reverse (reversed_drop_cr l)

abbrev pub drop_end : Text → Text
drop_end [] = []
drop_end (c ∷ cs) = drop_cr cs

abbrev pub ends_cr : Text → Bool
ends_cr [] = false
ends_cr (c ∷ cs) = c == 13

-- `ReadLine`, its second result dropped; `none` is the end of the connection. A carriage return that
-- ends a full buffer goes back into it.
abbrev pub line_of : Sliced → Slice → Reader × Option Text
line_of s line = (s.reader, some (drop_end (reverse s.slice)))
line_of s full =
    if ends_cr (reverse s.slice)
    then (
      record { buffered = 13 ∷ s.reader.buffered; rest = s.reader.rest },
      some (reverse (drop 1 (reverse s.slice))),
    )
    else (s.reader, some s.slice)
line_of s at_end = (s.reader, if s.slice == [] then none else some s.slice)

unfoldable pub read_line : Reader → Reader × Option Text
unfolding read_slice
read_line r = let s = read_slice r.buffered r.rest in line_of s s.end

pub data Channel : Type 0 where
  client_conn http_conn https_conn manager_conn : Channel

-- What the loop over the lines ends with: the channel, if there was a line with the host, and what is
-- kept in `buffer`.
pub record Headed : Type 0 where
  pub ch : Option Channel
  pub buffer : Text
  pub reader : Reader

abbrev pub crlf : Text
crlf = 13 ∷ 10 ∷ []

abbrev pub is_host_line : Text → Bool
is_host_line b = has_prefix b (codes "Host:") || has_prefix b (codes "host:")

abbrev pub host_of_line : Text → Text
host_of_line b = trim_space (replace_all (replace_all b (codes "Host:") []) (codes "host:") [])

abbrev pub http_channel : Text → Text → Channel
http_channel manager_host b =
    if get_ip_by_addr (host_of_line b) == manager_host then manager_conn else http_conn

-- The loop over the lines, on fuel: a line takes at least one byte off what is left. At the end of the
-- connection it is closed.
unfoldable pub read_head : Text → ℕ → Text → Reader → Option Headed
unfolding read_line
read_head manager_host zero buffer r = none
read_head manager_host (suc fuel) buffer r = elim (read_line r).1 [
  | none ↦ some (record { ch = none; buffer = buffer; reader = (read_line r).0 })
  | some b ↦
      let buffer' = buffer ++ (b ++ crlf) in
      let rest = read_head manager_host fuel buffer' (read_line r).0 in
      if is_host_line b
      then some (record {
        ch = some (http_channel manager_host b);
        buffer = buffer' ++ (read_line r).0.buffered;
        reader = record { buffered = []; rest = (read_line r).0.rest };
      })
      else rest
]

-- `PortConn`: `rs` is read before what is left of the connection.
pub record PortConn : Type 0 where
  pub conn : Chunks
  pub rs : Text
  pub read_more : Bool
  pub start : ℕ

abbrev pub new_port_conn : Chunks → Text → Bool → PortConn
new_port_conn conn rs read_more = record { conn = conn; rs = rs; read_more = read_more; start = 0 }

-- `Read` into `n` bytes: what is read, and whether there was an error.
abbrev pub Got : Type 0
Got = PortConn × Text × Bool

-- The rest of the buffer is filled from the connection.
abbrev pub read_behind : PortConn → Text → Chunks × Text × Bool → Got
read_behind p front (conn, b, failed) = (record p { conn = conn }, front ++ b, failed)

unfoldable pub read_conn : ℕ → PortConn → Got
unfolding read
read_conn n p =
    let front = take n (drop p.start p.rs) in
    let done = record p { start = length p.rs } in
    if ltb n (length p.rs - p.start)
    then (record p { start = p.start + n }, take n p.rs, false)
    else if ltb p.start (length p.rs)
    then (if p.read_more
        then read_behind done front (read (n - length front) p.conn)
        else (done, front, false))
    else read_behind p [] (read n p.conn)

-- What `process` sends to which channel. Nothing is sent for a connection that ends too early, or without
-- a host, or that is dropped by the timer.
abbrev pub Sent : Type 0
Sent = Option (Channel × PortConn)

-- `accepts` is what the `select` chooses: whether someone takes a connection from a channel before its timer
-- ends.
module _ (accepts : Channel → Bool) where
  -- The `select`: the connection is sent, or dropped and left open.
  abbrev pub select_send : Channel → PortConn → Sent
  select_send ch p = if accepts ch then some (ch, p) else none

  abbrev pub sent_on : Text → Headed → Option Channel → Sent
  sent_on buf h none = none
  sent_on buf h (some ch) =
      select_send ch (new_port_conn h.reader.rest (if h.buffer == [] then buf else h.buffer) false)

  abbrev pub sent_http : Text → Headed → Sent
  sent_http buf h = sent_on buf h h.ch

  abbrev pub classify : Text → ℕ → Text → Chunks → Option Sent
  classify manager_host fuel buf conn =
      if is_http (bytes_to_num buf)
      then elim (read_head manager_host fuel buf (record { buffered = []; rest = conn })) [
        | none ↦ none
        | some h ↦ some (sent_http buf h)
      ]
      else if bytes_to_num buf == pos 848384
      then some (select_send client_conn (new_port_conn conn buf false))
      else some (select_send https_conn (new_port_conn conn buf true))

  -- `process`; `none` is that the fuel ended.
  unfoldable pub process : Text → ℕ → Chunks → Option Sent
  unfolding bytes_to_num read_head
  process manager_host fuel conn = elim (read_full 3 conn).1 [
    | none ↦ some none
    | some buf ↦ classify manager_host fuel buf (read_full 3 conn).0
  ]

-- The state of the multiplexer and of a listener that `Close` changes. Closing twice is an error.
unfoldable pub close : Bool → Bool × Bool
close is_close = if is_close then (is_close, false) else (true, true)

-- `Accept` of a `PortListener`: what the channel gives, `none` if it is closed.
unfoldable pub accept : Bool → Option PortConn → Option PortConn
accept is_close received = if is_close then none else received
