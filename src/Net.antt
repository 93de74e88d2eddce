-- ===== src/Net.antt =====
-- What a connection of package `net` gives its reader. What the peer sends comes in non-empty chunks,
-- as the network delivers it: one `Read` takes from one chunk only.
pub mod Stream
use nps_socks.Prelude.{
  List, ℕ, Text, Option, Bool, ltb, ◌++◌, none, false, ◌∷◌, [], some, if◌then◌else◌, ◌==◌, length,
  leb, ◌-◌, nat_eq, drop, take,
}

abbrev pub Chunks : Type 0
Chunks = List Text

-- `c.Read` into `n` bytes: what is left, what was read, and whether it failed at the end.
unfoldable pub read : ℕ → Chunks → Chunks × Text × Bool
read n [] = ([], [], ltb 0 n)
read n (c ∷ cs) =
    if n == 0
    then (c ∷ cs, [], false)
    else if leb (length c) n
    then (cs, c, false)
    else (drop n c ∷ cs, take n c, false)

abbrev pub behind : Text → Option Text → Option Text
behind c none = none
behind c (some s) = some (c ++ s)

-- `io.ReadFull` of `n` bytes, or `io.ReadAtLeast` for all of the buffer; `none` is an error
unfoldable pub read_full : ℕ → Chunks → Chunks × Option Text
read_full n [] = ([], if n == 0 then some [] else none)
read_full n (c ∷ cs) =
    let (cs', s) = read_full (n - length c) cs in
    if n == 0
    then (c ∷ cs, some [])
    else if leb (length c) n
    then (cs', behind c s)
    else (drop n c ∷ cs, some (take n c))
