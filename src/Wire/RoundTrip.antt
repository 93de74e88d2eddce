-- ===== src/Wire/RoundTrip.antt =====
-- lib/conn/conn.go: what one side sends, the other reads, however the network cuts it.
use nps_socks.Net.Stream.{bytes, read_full_front}
use nps_socks.Net.{Chunks, read_full}
use mathlib.Core.List.{append_assoc}
use nps_socks.Wire.{
  filled, le_bytes, le_int32, content_of_len, info_of, get_len, Reply, read_len, get_content,
  send_info, get_len_bytes, get_info, read_flag, pool_size,
}
use nps_socks.Prelude.{
  ℕ, ◌<◌, Text, ◌^◌, ◌≡◌, pos, ◌++◌, arith, some, ap, length, ◌≤◌, Option, ltb, ◌∙◌, ◌||◌, ◌==◌,
  false, nat_eq, ℤ, sym, none, some_inj,
}

le_int32-le_bytes : (n : ℕ) → n < 2 ^ 31 → le_int32 (le_bytes n) ≡ pos n
le_int32-le_bytes n h = ground arith

-- The reply is the value, and the bytes behind it are left.
abbrev pub Gives : {A : Type 0} → Reply A → A → Text → Type 0
Gives r a rest = (r.1 ≡ some a) × (bytes r.0 ≡ rest)

pub get_len-le_bytes :
    (n : ℕ) (rest : Text) (cs : Chunks)
    → n < 2 ^ 31
    → bytes cs ≡ le_bytes n ++ rest
    → Gives (get_len cs) (pos n) rest
unfolding get_len
get_len-le_bytes n rest cs small e =
    let (hit, left) = read_full_front (le_bytes n) rest cs e in
    rw hit (ap some (le_int32-le_bytes n small), left)

read_len-front :
    (buf rest : Text) (cs : Chunks)
    → 0 < length buf
    → length buf ≤ pool_size
    → bytes cs ≡ buf ++ rest
    → Gives (read_len (pos (length buf)) pool_size cs) buf rest
unfolding read_len
read_len-front buf rest cs some_byte fits e =
    let fine : ltb pool_size (length buf) || length buf == 0 ≡ false = ground arith in
    rw fine (read_full_front buf rest cs e)

content_of_len-Gives :
    (r : Reply ℤ) (buf rest : Text)
    → 0 < length buf
    → length buf ≤ pool_size
    → Gives r (pos (length buf)) (buf ++ rest)
    → Gives (content_of_len r) buf rest
content_of_len-Gives (cs, none) buf rest some_byte fits (e, left) = absurd (ground (arith, e))
content_of_len-Gives (cs, some l) buf rest some_byte fits (e, left) =
    rw (some_inj e) (read_len-front buf rest cs some_byte fits left)

-- A message of 1 to 65536 bytes is read back from its length and its bytes, and what follows is left.
pub get_content-get_len_bytes :
    (buf rest : Text) (cs : Chunks)
    → 0 < length buf
    → length buf ≤ pool_size
    → bytes cs ≡ get_len_bytes buf ++ rest
    → Gives (get_content cs) buf rest
unfolding get_content get_len_bytes
get_content-get_len_bytes buf rest cs some_byte fits e =
    content_of_len-Gives (get_len cs) buf rest some_byte fits (
      get_len-le_bytes (length buf) (buf ++ rest) cs (omega (arith, fits))
        (e ∙ append_assoc (le_bytes (length buf)) buf rest))

info_of-Gives :
    {A : Type 0} (fill : Text → Option A) (r : Reply Text) (json rest : Text)
    → Gives r json rest
    → ((info_of fill r).1 ≡ filled (fill json)) × (bytes (info_of fill r).0 ≡ rest)
info_of-Gives fill (cs, none) json rest (e, left) = absurd (ground (arith, e))
info_of-Gives fill (cs, some b) json rest (e, left) = (ap (λ t. filled (fill t)) (some_inj e), left)

-- What SendInfo writes with a flag of four bytes, ReadFlag and the function for the value read back,
-- however it is cut into chunks: the flag, and the value as JSON leaves it, with the bytes that follow
-- left. Its JSON has 1 to 65536 bytes.
pub get_info-send_info :
    {A : Type 0} (marshal : A → Option Text) (fill : Text → Option A) (a : A)
    (flag json out rest : Text) (cs : Chunks)
    → marshal a ≡ some json
    → length flag ≡ 4
    → 0 < length json
    → length json ≤ pool_size
    → send_info marshal a flag ≡ some out
    → bytes cs ≡ out ++ rest
    → ((read_flag cs).1 ≡ some flag)
      × ((get_info fill (read_flag cs).0).1 ≡ filled (fill json))
      × (bytes (get_info fill (read_flag cs).0).0 ≡ rest)
unfolding send_info get_info read_flag
get_info-send_info marshal fill a flag json out rest cs m four some_byte fits sent e =
    let shape : flag ++ get_len_bytes json ≡ out = ground (arith, m, sent) in
    let (hit, left) =
      read_full_front flag (get_len_bytes json ++ rest) cs
        (e ∙ ap (λ t. t ++ rest) (sym shape) ∙ append_assoc flag (get_len_bytes json) rest) in
    let (got, more) =
      info_of-Gives fill (get_content (read_full (length flag) cs).0) json rest
        (get_content-get_len_bytes json rest (read_full (length flag) cs).0 some_byte fits left) in
    rw (← four) (hit, got, more)
