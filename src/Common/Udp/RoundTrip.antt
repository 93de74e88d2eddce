-- ===== src/Common/Udp/RoundTrip.antt =====
-- lib/common/netpackager.go: what is encoded is decoded again.
use mathlib.Core.List.{append_assoc}
use nps_socks.Prelude.{
  ◌≡◌, ℕ, Text, length, ◌<◌, some, ◌++◌, drop-length-append, ap, arith, suc, ◌∷◌, ◌%◌,
  take-length-append, ◌+◌, length-append, [], ◌⊎◌, ◌≤◌, ◌/◌, inl, inr, ◌∙◌,
}
use nps_socks.Common.Bytes.{put_uint16, slice_to-append}
use nps_socks.Common.Udp.{
  IpText, Addr, UdpDatagram, decoded, received, address_bytes, decode_host, decode, write,
  read_udp_datagram, pool_size_udp, header_length, parse,
}

-- An address that its text and its bytes both determine: a domain name of fewer than 256 bytes, or
-- the text that package `net` gives the bytes of an IP address.
pub data IsCanonical (net : IpText) (a : Addr) : Type 0 where
  domain : a.type ≡ 3 → length a.host < 256 → IsCanonical net a
  ip4 :
      (ip : Text)
      → a.type ≡ 1
      → net.parse4 a.host ≡ some ip
      → length ip ≡ 4
      → net.show ip ≡ a.host
      → IsCanonical net a
  ip16 :
      (ip : Text)
      → a.type ≡ 4
      → net.parse16 a.host ≡ some ip
      → length ip ≡ 16
      → net.show ip ≡ a.host
      → IsCanonical net a

module _ (net : IpText) where
  decode_host-append :
      (type : ℕ) (f : Text → Text) (s rest : Text) (port : ℕ)
      → port < 65536
      → decode_host net type f (length s) (s ++ (put_uint16 port ++ rest))
        ≡ decoded (record { type = type; host = f s; port = port })
  decode_host-append type f s rest port h = ground (
    arith,
    slice_to-append s (put_uint16 port ++ rest),
    drop-length-append s (put_uint16 port ++ rest),
  )

  -- A canonical address with a 16-bit port is decoded from its encoding, whatever follows it.
  pub decode-bytes :
      (a : Addr) (rest : Text)
      → IsCanonical net a
      → a.port < 65536
      → decode net (address_bytes net a ++ (put_uint16 a.port ++ rest)) ≡ decoded a
  unfolding decode
  decode-bytes a rest (domain t len) p =
      ground (arith, decode_host-append 3 (λ h. h) a.host rest a.port p)
  decode-bytes a rest (ip4 ip t e len s) p =
      ground (arith, decode_host-append 1 net.show ip rest a.port p)
  decode-bytes a rest (ip16 ip t e len s) p =
      ground (arith, decode_host-append 4 net.show ip rest a.port p)

  -- A datagram in the stream whose address bytes are `e`, with `more` behind it.
  parse-append :
      (rsv frag r1 r2 : ℕ) (a : Addr) (e body more : Text)
      → decode net e ≡ decoded a
      → parse net rsv frag
          (suc (suc (suc (length e))))
          (suc (suc (suc (length (e ++ body)))))
          (r1 ∷ r2 ∷ frag ∷ ((e ++ body) ++ more))
        ≡ received
            (record { header = record { rsv = rsv; frag = frag; addr = some a }; body = body })
  parse-append rsv frag r1 r2 a e body more d =
      let whole = take-length-append (e ++ body) more in
      let front = take-length-append e (body ++ more) in
      ground (
        arith,
        d,
        whole,
        front,
        append_assoc e body more,
        drop-length-append e body,
        length-append {0} e body,
      )

  -- The two bytes behind the fragment number give the length of the header.
  abbrev Sized : Text → Type 0
  Sized e =
      (type : ℕ) × (len : ℕ) × (e' : Text) × (e ≡ type ∷ len ∷ e')
      × (header_length net type len ≡ some (3 + length e))

  Sized-bytes : (a : Addr) → IsCanonical net a → Sized (address_bytes net a ++ put_uint16 a.port)
  Sized-bytes a (domain t len) = (
    3,
    length a.host % 256,
    a.host ++ put_uint16 a.port,
    ground arith,
    ground (arith, length-append {0} a.host (put_uint16 a.port)),
  )
  Sized-bytes a (ip4 [] t e len s) = absurd (omega arith)
  Sized-bytes a (ip4 (x ∷ ip) t e len s) = (
    1,
    x,
    ip ++ put_uint16 a.port,
    ground arith,
    ground (arith, length-append {0} ip (put_uint16 a.port)),
  )
  Sized-bytes a (ip16 [] t e len s) = absurd (omega arith)
  Sized-bytes a (ip16 (x ∷ ip) t e len s) = (
    4,
    x,
    ip ++ put_uint16 a.port,
    ground arith,
    ground (arith, length-append {0} ip (put_uint16 a.port)),
  )

  -- The reserved field is 0 and the stream ends, or it is the length of the data.
  abbrev Delimits : ℕ → Text → Text → Type 0
  Delimits rsv body more = ((rsv ≡ 0) × (more ≡ [])) ⊎ ((rsv ≡ length body) × (0 < length body))

  read-sized :
      (rsv frag : ℕ) (a : Addr) (type len : ℕ) (e body more : Text)
      → decode net (type ∷ len ∷ e) ≡ decoded a
      → header_length net type len ≡ some (3 + length (type ∷ len ∷ e))
      → rsv < 65536
      → 5 + length (e ++ body) ≤ pool_size_udp
      → Delimits rsv body more
      → read_udp_datagram net
          ((rsv / 256) % 256 ∷ rsv % 256 ∷ frag ∷ type ∷ len ∷ ((e ++ body) ++ more))
        ≡ received
            (record { header = record { rsv = rsv; frag = frag; addr = some a }; body = body })
  unfolding read_udp_datagram
  read-sized rsv frag a type len e body more d hl small fits (inl (z, end)) = ground (
    arith,
    parse-append rsv frag ((rsv / 256) % 256) (rsv % 256) a (type ∷ len ∷ e) body more d,
    length-append {0} (e ++ body) more,
  )
  read-sized rsv frag a type len e body more d hl small fits (inr (z, some_data)) = ground (
    arith,
    parse-append rsv frag ((rsv / 256) % 256) (rsv % 256) a (type ∷ len ∷ e) body more d,
    length-append {0} (e ++ body) more,
    length-append {0} e body,
  )

  write_shape :
      (d : UdpDatagram) (a : Addr) (b : Text)
      → d.header.addr ≡ some a
      → write net d ≡ some b
      → b
        ≡ (d.header.rsv / 256) % 256
          ∷ d.header.rsv % 256
          ∷ d.header.frag
          ∷ ((address_bytes net a ++ put_uint16 a.port) ++ d.body)
  unfolding write
  write_shape d a b has w = ground arith

  -- What UDPDatagram.Write hands on, ReadUDPDatagram reads back: a datagram with a canonical
  -- address, a 16-bit port and reserved field 0 that fits the pool's buffer is received from its
  -- bytes, and so is one whose reserved field is its length, from its bytes and whatever follows.
  pub read-write :
      (d : UdpDatagram) (a : Addr) (more : Text)
      → d.header.addr ≡ some a
      → IsCanonical net a
      → a.port < 65536
      → d.header.rsv < 65536
      → Delimits d.header.rsv d.body more
      → (b : Text) → write net d ≡ some b
      → length b ≤ pool_size_udp
      → read_udp_datagram net (b ++ more) ≡ received d
  read-write d a more has canonical p small kind b w fits =
      let (type, len, e, q, hl) = Sized-bytes a canonical in
      let shape : b
          ≡ (d.header.rsv / 256) % 256
            ∷ d.header.rsv % 256
            ∷ d.header.frag
            ∷ type
            ∷ len
            ∷ (e ++ d.body) =
        write_shape d a b has w ∙ rw q in
      let size : length b ≡ 5 + length (e ++ d.body) =
        ap (length {0} {A = ℕ}) shape ∙ omega arith in
      let back = rw q at (decode-bytes a [] canonical p) in
      ap (λ t. read_udp_datagram net (t ++ more)) shape
      ∙ read-sized d.header.rsv d.header.frag a type len e d.body more back (rw q at hl) small
          (omega arith) kind
      ∙ ground (arith, has)
