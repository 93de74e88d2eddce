-- ===== src/Pmux/Routing.antt =====
-- lib/pmux/pmux.go: where a connection goes, and that its reader gets all the bytes of it.
use nps_socks.Pmux.Reading.{IsLine, pending, read_line-crlf}
use nps_socks.Pmux.{
  Reader, Channel, Headed, PortConn, crlf, read_line, read_head, is_host_line, http_channel,
  process, select_send, sent_http, is_http, bytes_to_num, new_port_conn, buffer_size, read_conn,
}
use nps_socks.Net.{Chunks, read_full}
use nps_socks.Net.Stream.{bytes, read_full_front}
use nps_socks.Prelude.{
  Text, Option, ℕ, List, ◌+◌, ◌≤◌, ◌<◌, ◌≡◌, ◌==◌, length, length-append, take, some, true, false,
  arith, refl, sym, ap, ◌∙◌, int_eq, ◌∷◌, ◌++◌, [], suc, zero, beq_text, subst, text_eq, Bool,
  if◌then◌else◌, none,
}
use mathlib.Core.List.{append_assoc}

-- A line of a request that fits into the buffer.
abbrev pub Fits : Text → Type 0
Fits l = IsLine l × (length l + 2 ≤ buffer_size)

-- The lines before the one that names the host.
abbrev pub IsBefore : List Text → Type 0
IsBefore [] = Unit
IsBefore (l ∷ ls) = Fits l × (is_host_line l ≡ false) × IsBefore ls

abbrev pub text_of : List Text → Text → Text
text_of [] rest = rest
text_of (l ∷ ls) rest = l ++ (crlf ++ text_of ls rest)

-- The head that the loop reads: where it leads, and that it loses nothing.
record IsHead (manager_host host all : Text) (o : Option Headed) : Type 0 where
  h : Headed
  reads : o ≡ some h
  leads : h.ch ≡ some (http_channel manager_host host)
  keeps : h.buffer ++ pending h.reader ≡ all
  starts : (h.buffer == []) ≡ false
  drained : h.reader.buffered ≡ []

not_empty : (t : Text) → 0 < length t → (t == []) ≡ false
unfolding beq_text
not_empty [] h = absurd (omega arith)
not_empty (x ∷ t) h = refl

-- What is kept with the line of the host.
keeps_all :
    (buffer host buffered left rest : Text)
    → buffered ++ left ≡ rest
    → ((buffer ++ (host ++ crlf)) ++ buffered) ++ left ≡ buffer ++ (host ++ (crlf ++ rest))
keeps_all buffer host buffered left rest e = simp (append_assoc, e)

keeps_line : (buffer l t : Text) → (buffer ++ (l ++ crlf)) ++ t ≡ buffer ++ (l ++ (crlf ++ t))
keeps_line buffer l t = simp append_assoc

keeps_some :
    (buffer host buffered : Text) → (((buffer ++ (host ++ crlf)) ++ buffered) == []) ≡ false
keeps_some buffer host buffered = not_empty ((buffer ++ (host ++ crlf)) ++ buffered) (
    omega (
      arith,
      length-append (buffer ++ (host ++ crlf)) buffered,
      length-append buffer (host ++ crlf),
      length-append host crlf,
    ))

read_head-IsHead :
    (manager_host : Text) (fuel : ℕ) (ls : List Text) (host rest buffer : Text) (r : Reader)
    → pending r ≡ text_of ls (host ++ (crlf ++ rest))
    → IsBefore ls
    → Fits host
    → is_host_line host ≡ true
    → length ls < fuel
    → IsHead manager_host host
        (buffer ++ text_of ls (host ++ (crlf ++ rest)))
        (read_head manager_host fuel buffer r)
unfolding read_head
read_head-IsHead m zero ls host rest buffer r e before fits named enough = elim enough [ ]
read_head-IsHead m (suc fuel) [] host rest buffer r e before (plain, short) named enough =
    let (read, left) = read_line-crlf r host rest e plain short in
    let r' = (read_line r).0 in
    rw (read_head, read, named)
      (record {
        h = record {
          ch = some (http_channel m host);
          buffer = (buffer ++ (host ++ crlf)) ++ r'.buffered;
          reader = record { buffered = []; rest = r'.rest };
        };
        reads = refl;
        leads = refl;
        keeps = keeps_all buffer host r'.buffered (bytes r'.rest) rest left;
        starts = keeps_some buffer host r'.buffered;
        drained = refl;
      })
read_head-IsHead m (suc fuel) (l ∷ ls) host rest buffer r e ((plain, short), other, before) fits
      named enough =
    let (read, left) = read_line-crlf r l (text_of ls (host ++ (crlf ++ rest))) e plain short in
    let ih =
      read_head-IsHead m fuel ls host rest (buffer ++ (l ++ crlf)) (read_line r).0 left before fits
        named (omega (arith, enough)) in
    rw (read_head, read, other)
      (subst (λ t. IsHead m host t (read_head m fuel (buffer ++ (l ++ crlf)) (read_line r).0))
        (keeps_line buffer l (text_of ls (host ++ (crlf ++ rest)))) ih)

sent_http-some :
    (accepts : Channel → Bool) (buf : Text) (h : Headed) (ch : Channel)
    → h.ch ≡ some ch
    → (h.buffer == []) ≡ false
    → sent_http accepts buf h ≡ select_send accepts ch (new_port_conn h.reader.rest h.buffer false)
sent_http-some accepts buf h ch leads starts = ground (arith, leads, starts)

-- A connection that begins with three bytes of an HTTP method is sent to the web manager or to the HTTP
-- proxy, as its first line with the host says, if that one takes it before the timer ends, and is dropped
-- otherwise; this is so once that line is there, however the bytes are cut into chunks. What its new reader
-- has is the whole of what was sent. Up to that line, the lines end with a carriage return and a line feed
-- and fit into the buffer of 4096 bytes.
pub process-head :
    (accepts : Channel → Bool) (manager_host buf : Text) (ls : List Text) (host rest : Text)
    (conn : Chunks) (fuel : ℕ)
    → bytes conn ≡ buf ++ text_of ls (host ++ (crlf ++ rest))
    → length buf ≡ 3
    → is_http (bytes_to_num buf) ≡ true
    → IsBefore ls
    → Fits host
    → is_host_line host ≡ true
    → length ls < fuel
    → (p : PortConn) × (process accepts manager_host fuel conn
        ≡ some (
            if accepts (http_channel manager_host host)
            then some (http_channel manager_host host, p)
            else none))
      × (p.rs ++ bytes p.conn ≡ bytes conn)
      × (p.start ≡ 0)
      × (p.read_more ≡ false)
unfolding process
process-head accepts m buf ls host rest conn fuel e three http before fits named enough =
    let (hit, left) =
      subst
        (λ n.
          ((read_full n conn).1 ≡ some buf)
          × (bytes (read_full n conn).0 ≡ text_of ls (host ++ (crlf ++ rest))))
        three (read_full_front buf (text_of ls (host ++ (crlf ++ rest))) conn e) in
    let conn' = (read_full 3 conn).0 in
    let head =
      read_head-IsHead m fuel ls host rest buf (record { buffered = []; rest = conn' }) left before
        fits named enough in
    let h = head.h in
    (
      new_port_conn h.reader.rest h.buffer false,
      rw (process, hit, http, head.reads)
          (ap some (sent_http-some accepts buf h (http_channel m host) head.leads head.starts)),
      ap (λ t. h.buffer ++ (t ++ bytes h.reader.rest)) (sym head.drained) ∙ (head.keeps ∙ sym e),
      refl,
      refl,
    )

-- A reader whose buffer is shorter than half of the bytes that were read ahead gets their beginning
-- twice: both of its first two reads give the first bytes of the connection.
pub read_conn-read_conn :
    (n : ℕ) (p : PortConn)
    → p.start ≡ 0
    → n + n < length p.rs
    → ((read_conn n p).1 ≡ take n p.rs)
      × ((read_conn n (read_conn n p).0).1 ≡ take n p.rs)
      × ((read_conn n (read_conn n p).0).0.start ≡ n + n)
unfolding read_conn
read_conn-read_conn n p fresh short = ground arith

take_all : (n : ℕ) (s : Text) → length s ≤ n → take n s ≡ s
take_all zero [] h = refl
take_all zero (x ∷ s) h = absurd (omega arith)
take_all (suc n) [] h = refl
take_all (suc n) (x ∷ s) h = ap (λ t. x ∷ t) (take_all n s (omega arith))

-- A first read whose buffer has room for what was read ahead gives all of that, and what follows is left.
pub read_conn-room :
    (n : ℕ) (p : PortConn)
    → p.start ≡ 0
    → p.read_more ≡ false
    → 0 < length p.rs
    → length p.rs ≤ n
    → ((read_conn n p).1 ≡ p.rs)
      × ((read_conn n p).0.conn ≡ p.conn)
      × ((read_conn n p).0.start ≡ length p.rs)
unfolding read_conn
read_conn-room n p fresh alone some_ahead room = ground (arith, take_all n p.rs room)
