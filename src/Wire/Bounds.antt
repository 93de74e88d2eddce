-- ===== src/Wire/Bounds.antt =====
-- lib/conn/conn.go: what is left to read after a message was read.
use nps_socks.Net.Stream.{bytes, bytes-read_full, length-read_full}
use nps_socks.Prelude.{
  ℤ, Text, ◌≡◌, ℕ, length, Option, some, ◌+◌, ◌≤◌, Option-cases, arith, negsuc, none, ap, pos,
  length-append, Bool-cases, inl, ltb, ◌||◌, inr, ◌==◌, nat_eq,
}
use nps_socks.Net.{Chunks, read_full}
use nps_socks.Wire.{
  read_flag, get_content, content_of_len, info_of, Reply, read_len, get_len, get_info, pool_size,
}

-- A flag takes four bytes.
pub length-read_flag :
    (cs : Chunks) (f : Text)
    → (read_flag cs).1 ≡ some f
    → length (bytes (read_flag cs).0) + 4 ≡ length (bytes cs)
unfolding read_flag
length-read_flag cs f hit =
    let (same, len) = bytes-read_full 4 cs f hit in
    omega (arith, ap length same, len, length-append f (bytes (read_full 4 cs).0))

-- Reading a message with a length in front leaves no more than there was.
length-read_len :
    (l : ℤ) (size : ℕ) (cs : Chunks) → length (bytes (read_len l size cs).0) ≤ length (bytes cs)
unfolding read_len
length-read_len (negsuc n) size cs = omega arith
length-read_len (pos n) size cs = elim (Bool-cases (ltb size n || n == 0)) [
  | inl wrong ↦ rw wrong (omega arith)
  | inr fine ↦ rw fine (length-read_full n cs)
]

length-get_len : (cs : Chunks) → length (bytes (get_len cs).0) ≤ length (bytes cs)
unfolding get_len
length-get_len cs = elim (Option-cases (read_full 4 cs).1) [
  | inl short ↦ rw (get_len, short) (length-read_full 4 cs)
  | inr (b, hit) ↦ rw (get_len, hit) (length-read_full 4 cs)
]

length-content_of_len :
    (r : Reply ℤ) (n : ℕ) → length (bytes r.0) ≤ n → length (bytes (content_of_len r).0) ≤ n
length-content_of_len (cs, none) n h = h
length-content_of_len (cs, some l) n h = omega (arith, length-read_len l pool_size cs, h)

length-info_of :
    {A : Type 0} (fill : Text → Option A) (r : Reply Text) (n : ℕ)
    → length (bytes r.0) ≤ n
    → length (bytes (info_of fill r).0) ≤ n
length-info_of fill (cs, none) n h = h
length-info_of fill (cs, some b) n h = h

pub length-get_info :
    {A : Type 0} (fill : Text → Option A) (cs : Chunks)
    → length (bytes (get_info fill cs).0) ≤ length (bytes cs)
unfolding get_info get_content
length-get_info fill cs =
    length-info_of fill (get_content cs) (length (bytes cs))
      (length-content_of_len (get_len cs) (length (bytes cs)) (length-get_len cs))
