-- ===== src/File/Paging.antt =====
-- The page counters that the lists of lib/file/db.go and server/server.go share:
-- `cnt++; if start--; start < 0 { if length--; length >= 0 { list = append(list, v) } }`.
pub mod Exact
use nps_socks.Prelude.{
  ℕ, ◌+◌, ◌^◌, ◌≤◌, ◌<◌, List, [], ◌∷◌, ◌++◌, ℤ, pos, pos_part, neg_part, ◌-ℤ◌, wrap64, ltb_ℤ,
  leb_ℤ, take, drop, if◌then◌else◌,
}

pub record Page {ℓ} (V : Type ℓ) : Type ℓ where
  pub start : ℤ
  pub room : ℤ
  pub cnt : ℕ
  pub list : List V

abbrev pub first_page {ℓ} : {V : Type ℓ} → ℤ → ℤ → Page V
first_page start room = record { start = start; room = room; cnt = 0; list = [] }

module _ {ℓ} {V : Type ℓ} where
  unfoldable pub turn_page : V → Page V → Page V
  turn_page v p =
      let start = wrap64 (p.start -ℤ pos 1) in
      let room = wrap64 (p.room -ℤ pos 1) in
      if ltb_ℤ start (pos 0)
      then (if leb_ℤ (pos 0) room
          then record { start = start; room = room; cnt = p.cnt + 1; list = p.list ++ v ∷ [] }
          else record { start = start; room = room; cnt = p.cnt + 1; list = p.list })
      else record { start = start; room = p.room; cnt = p.cnt + 1; list = p.list }

  unfoldable pub turn_pages : List V → Page V → Page V
  unfolding turn_page
  turn_pages [] p = p
  turn_pages (v ∷ vs) p = turn_pages vs (turn_page v p)

  -- The counters do not pass the least 64-bit integer in `n` more steps.
  abbrev pub HasRoom : ℕ → Page V → Type 0
  HasRoom n p =
      (pos_part p.start < 2 ^ 63)
      × (pos_part p.room < 2 ^ 63)
      × (neg_part p.start + n ≤ 2 ^ 63)
      × (neg_part p.room + n ≤ 2 ^ 63)

  -- What a page takes of the values that come.
  abbrev pub page_of : ℤ → ℤ → List V → List V
  page_of start room vs = take (pos_part room) (drop (pos_part start) vs)
