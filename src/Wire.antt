-- ===== src/Wire.antt =====
-- lib/conn/conn.go and lib/conn/link.go: the messages between the server and its clients. A message
-- is read with `io.ReadFull` only, from the bytes read ahead (`Rb`) and then from the connection: both
-- are chunks here. Writes are the bytes handed to the connection.
pub mod Bounds
pub mod Health
pub mod RoundTrip
use nps_socks.Common.Arrays.{get_bool_by_str}
use nps_socks.Net.{Chunks, read_full}
use nps_socks.Prelude.{
  ◌∷◌, ℕ, Text, Option, ℤ, List, ◌%◌, get_or, length, codes, ◌++◌, [], Bool, some, negsuc,
  if◌then◌else◌, ◌/◌, ltb, ◌+◌, none, split_text, pos, ◌*◌, ◌-◌, ◌||◌, ◌==◌, nat_eq,
}

-- The four bytes of an `int32` in little-endian order, and the number they stand for.
abbrev pub le_bytes : ℕ → Text
le_bytes n = n % 256 ∷ (n / 256) % 256 ∷ (n / 65536) % 256 ∷ (n / 16777216) % 256 ∷ []

abbrev pub int32_of : ℕ → ℤ
int32_of w = if ltb w 2147483648 then pos w else negsuc (4294967295 - w)

abbrev pub le_int32 : Text → ℤ
le_int32 s =
    int32_of (get_or s 0 0 + 256 * get_or s 1 0 + 65536 * get_or s 2 0 + 16777216 * get_or s 3 0)

-- `GetLenBytes`
unfoldable pub get_len_bytes : Text → Text
get_len_bytes buf = le_bytes (length buf) ++ buf

abbrev pub Reply : Type 0 → Type 0
Reply A = Chunks × Option A

abbrev len_of : Reply Text → Reply ℤ
len_of (cs, none) = (cs, none)
len_of (cs, some b) = (cs, some (le_int32 b))

unfoldable pub get_len : Chunks → Reply ℤ
get_len cs = len_of (read_full 4 cs)

-- `size` is the length of the buffer.
unfoldable pub read_len : ℤ → ℕ → Chunks → Reply Text
read_len (negsuc n) size cs = (cs, none)
read_len (pos n) size cs = if ltb size n || n == 0 then (cs, none) else read_full n cs

unfoldable pub get_short_content : ℕ → Chunks → Reply Text
get_short_content l cs = read_full l cs

abbrev pub short_len_content : Reply ℤ → Reply Text
short_len_content (cs, none) = (cs, none)
short_len_content (cs, some (negsuc n)) = (cs, none)
short_len_content (cs, some (pos n)) = if ltb 32768 n then (cs, none) else get_short_content n cs

unfoldable pub get_short_len_content : Chunks → Reply Text
unfolding get_len get_short_content
get_short_len_content cs = short_len_content (get_len cs)

unfoldable pub read_flag : Chunks → Reply Text
read_flag cs = read_full 4 cs

unfoldable pub write_len_content : Text → Text
unfolding get_len_bytes
write_len_content buf = get_len_bytes buf

-- `PoolSize`, the length of the buffers of `BufPoolMax`
abbrev pub pool_size : ℕ
pool_size = 65536

abbrev content_of_len : Reply ℤ → Reply Text
content_of_len (cs, none) = (cs, none)
content_of_len (cs, some l) = read_len l pool_size cs

-- The common part of `getInfo` and `GetHealthInfo`: a length, and as many bytes.
unfoldable pub get_content : Chunks → Reply Text
unfolding read_len
get_content cs = content_of_len (get_len cs)

-- A value read through a nil pointer: an error, or the pointer afterwards, which is still nil where
-- `fill`, json.Unmarshal into it, leaves it so. An error of json.Unmarshal is dropped.
pub data Info (A : Type 0) : Type 0 where
  read_error : Info A
  filled : Option A → Info A

abbrev info_of : {A : Type 0} → (Text → Option A) → Reply Text → Chunks × Info A
info_of fill (cs, none) = (cs, read_error)
info_of fill (cs, some b) = (cs, filled (fill b))

unfoldable pub get_info : {A : Type 0} → (Text → Option A) → Chunks → Chunks × Info A
get_info fill cs = info_of fill (get_content cs)

-- What `SendInfo` writes; `none` is an error of json.Marshal.
unfoldable pub send_info : {A : Type 0} → (A → Option Text) → A → Text → Option Text
unfolding get_len_bytes
send_info marshal t flag = elim (marshal t) [
  | none ↦ none
  | some b ↦ some (flag ++ get_len_bytes b)
]

-- `common.CONN_DATA_SEQ`, and `common.GetWriteStr`
abbrev pub conn_data_seq : Text
conn_data_seq = codes "*#*"

unfoldable pub get_write_str : List Text → Text
get_write_str [] = []
get_write_str (v ∷ vs) = v ++ (conn_data_seq ++ get_write_str vs)

-- `common.BinaryWrite`
unfoldable pub binary_write : List Text → Text
unfolding get_write_str get_len_bytes
binary_write vs = get_len_bytes (get_write_str vs)

unfoldable pub send_health_info : Text → Text → Text
unfolding binary_write
send_health_info info status = binary_write (info ∷ status ∷ [])

abbrev health_parts : List Text → Option (Text × Bool)
health_parts (info ∷ status ∷ more) = some (info, get_bool_by_str status)
health_parts (info ∷ []) = none
health_parts [] = none

abbrev health_of : Reply Text → Reply (Text × Bool)
health_of (cs, none) = (cs, none)
health_of (cs, some b) = (cs, health_parts (split_text b conn_data_seq))

unfoldable pub get_health_info : Chunks → Reply (Text × Bool)
get_health_info cs = health_of (get_content cs)
