-- ===== src/Common/Udp.antt =====
-- lib/common/netpackager.go: the address and the datagram of SOCKS5 over UDP. The textual form of
-- an IP address, of package `net`, is a parameter; `none` and `panic` are Go's panics.
use nps_socks.Common.Bytes.{slice_to, put_uint16, uint16}
use nps_socks.Prelude.{
  Text, ℕ, Option, ◌∷◌, ◌++◌, [], ◌-◌, some, if◌then◌else◌, ◌==◌, ltb, ◌*◌, none, length, leb, ◌+◌,
  drop, nat_eq, ◌%◌, take,
}
pub mod RoundTrip

-- `parse4 host` is net.ParseIP(host).To4(), `show ip` is net.IP(ip).String().
pub record IpText : Type 0 where
  pub parse4 : Text → Option Text
  pub parse16 : Text → Option Text
  pub show : Text → Text

pub record Addr : Type 0 where
  pub type : ℕ
  pub host : Text
  pub port : ℕ

pub record UdpHeader : Type 0 where
  pub rsv : ℕ
  pub frag : ℕ
  pub addr : Option Addr

pub record UdpDatagram : Type 0 where
  pub header : UdpHeader
  pub body : Text

pub data Decoded : Type 0 where
  decoded : Addr → Decoded
  decode_error panic : Decoded

pub data Received : Type 0 where
  received : UdpDatagram → Received
  read_error not_supported overrun : Received

-- `PoolSizeUdp`
abbrev pub pool_size_udp : ℕ
pool_size_udp = 1672

abbrev ip4_or_zero : Option Text → Text
ip4_or_zero none = 0 ∷ 0 ∷ 0 ∷ 0 ∷ []
ip4_or_zero (some ip) = ip

abbrev ip16_or_zero : Option Text → Text
ip16_or_zero none = 0 ∷ 0 ∷ 0 ∷ 0 ∷ 0 ∷ 0 ∷ 0 ∷ 0 ∷ 0 ∷ 0 ∷ 0 ∷ 0 ∷ 0 ∷ 0 ∷ 0 ∷ 0 ∷ []
ip16_or_zero (some ip) = ip

module _ (net : IpText) where
  -- The bytes before the port.
  abbrev pub address_bytes : Addr → Text
  address_bytes addr =
      if addr.type == 1
      then 1 ∷ ip4_or_zero (net.parse4 addr.host)
      else if addr.type == 3
      then 3 ∷ (length addr.host % 256) ∷ addr.host
      else if addr.type == 4
      then 4 ∷ ip16_or_zero (net.parse16 addr.host)
      else 1 ∷ 0 ∷ 0 ∷ 0 ∷ 0 ∷ []

  -- What Encode writes to a buffer of `cap` bytes; its length is the position returned.
  unfoldable pub encode : ℕ → Addr → Option Text
  encode cap addr =
      let b = address_bytes addr ++ put_uint16 addr.port in
      if leb (length b) cap then some b else none

  -- The host of `n` bytes, through `show_host`, and the port behind it.
  abbrev pub decode_host : ℕ → (Text → Text) → ℕ → Text → Decoded
  decode_host type show_host n b = elim (slice_to n b) [
    | none ↦ panic
    | some host ↦ elim (uint16 (drop n b)) [
      | none ↦ panic
      | some port ↦ decoded (record { type = type; host = show_host host; port = port })
    ]
  ]

  abbrev decode_domain : Text → Decoded
  decode_domain [] = panic
  decode_domain (addrlen ∷ b) = decode_host 3 (λ host. host) addrlen b

  unfoldable pub decode : Text → Decoded
  decode [] = panic
  decode (type ∷ b) =
      if type == 1
      then decode_host 1 net.show 4 b
      else if type == 4
      then decode_host 4 net.show 16 b
      else if type == 3
      then decode_domain b
      else decode_error

  abbrev addr_or_empty : Option Addr → Addr
  addr_or_empty none = record { type = 0; host = []; port = 0 }
  addr_or_empty (some a) = a

  -- The bytes that UDPHeader.Write hands on.
  unfoldable pub header_bytes : UdpHeader → Option Text
  unfolding encode
  header_bytes h = elim (encode (pool_size_udp - 3) (addr_or_empty h.addr)) [
    | none ↦ none
    | some b ↦ some (put_uint16 h.rsv ++ (h.frag ∷ b))
  ]

  -- The bytes that UDPDatagram.Write hands on.
  unfoldable pub write : UdpDatagram → Option Text
  unfolding header_bytes
  write d = elim (header_bytes d.header) [ none ↦ none | some h ↦ some (h ++ d.body) ]

  -- The length of the header for an address type and the byte behind it.
  abbrev pub header_length : ℕ → ℕ → Option ℕ
  header_length atype len =
      if atype == 1
      then some 10
      else if atype == 4
      then some 22
      else if atype == 3
      then some (7 + len)
      else none

  abbrev finish : ℕ → ℕ → Text → Decoded → Received
  finish rsv frag body (decoded a) =
      received (record { header = record { rsv = rsv; frag = frag; addr = some a }; body = body })
  finish rsv frag body decode_error = not_supported
  finish rsv frag body panic = overrun

  -- The datagram in the first `n` bytes of the stream, of which `hlen` are the header.
  abbrev pub parse : ℕ → ℕ → ℕ → ℕ → Text → Received
  parse rsv frag hlen n b =
      if ltb n hlen
      then overrun
      else finish rsv frag (drop hlen (take n b)) (decode (drop 3 (take hlen b)))

  -- `stream` holds all bytes up to the end of the input.
  unfoldable pub read_udp_datagram : Text → Received
  unfolding decode
  read_udp_datagram (r1 ∷ r2 ∷ frag ∷ atype ∷ len ∷ rest) =
      let stream = r1 ∷ r2 ∷ frag ∷ atype ∷ len ∷ rest in
      let rsv = r1 * 256 + r2 in
      elim (header_length atype len) [
        | none ↦ not_supported
        | some hlen ↦
            if rsv == 0
            then (if ltb pool_size_udp (length stream)
                then overrun
                else parse rsv frag hlen (length stream) stream)
            else if ltb pool_size_udp (hlen + rsv)
            then overrun
            else if ltb (length stream) (hlen + rsv)
            then read_error
            else parse rsv frag hlen (hlen + rsv) stream
      ]
  read_udp_datagram _ = read_error
