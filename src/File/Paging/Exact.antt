-- ===== src/File/Paging/Exact.antt =====
-- The page counters of the lists take exactly the page that was asked for.
use nps_socks.File.Paging.{Page, turn_page, turn_pages, first_page, HasRoom, page_of}
use nps_socks.Prelude.{
  ℕ, zero, suc, ◌+◌, ◌^◌, ◌≤◌, ◌<◌, ◌≡◌, refl, List, [], ◌∷◌, ◌++◌, ℤ, pos, negsuc, pos_part,
  neg_part, ◌-ℤ◌, wrap64, take, length, arith, sym, ◌∙◌, ap,
}
use mathlib.Core.List.{append-nil, append_assoc}

-- `start--` on a 64-bit integer.
down : ℤ → ℤ
down a = wrap64 (a -ℤ pos 1)

down_pos : (n : ℕ) → suc n < 2 ^ 63 → down (pos (suc n)) ≡ pos n
unfolding down ◌-ℤ◌ wrap64
down_pos n h = ground arith

down_low :
    (a : ℤ)
    → pos_part a ≡ 0
    → neg_part a + 1 ≤ 2 ^ 63
    → (pos_part (down a) ≡ 0) × (neg_part (down a) ≡ neg_part a + 1)
unfolding down ◌-ℤ◌ wrap64
down_low (pos n) z h = ground arith
down_low (negsuc n) z h = ground arith

module _ {ℓ} {V : Type ℓ} where
  cnt-turn_page : (v : V) (p : Page V) → (turn_page v p).cnt ≡ p.cnt + 1
  unfolding turn_page
  cnt-turn_page v p = ground arith

  pub cnt-turn_pages : (vs : List V) (p : Page V) → (turn_pages vs p).cnt ≡ p.cnt + length vs
  unfolding turn_pages
  cnt-turn_pages [] p = omega arith
  cnt-turn_pages (v ∷ vs) p = omega (arith, cnt-turn_page v p, cnt-turn_pages vs (turn_page v p))

  -- A value before the page.
  turn_page_skip :
      (v : V) (n : ℕ) (p : Page V)
      → p.start ≡ pos (suc n)
      → suc n < 2 ^ 63
      → turn_page v p ≡ record p { start = pos n; cnt = p.cnt + 1 }
  unfolding turn_page down
  turn_page_skip v n p e h = ground (arith, down_pos n h)

  -- A value that the page has room for.
  turn_page_take :
      (v : V) (n : ℕ) (p : Page V)
      → pos_part p.start ≡ 0
      → p.room ≡ pos (suc n)
      → neg_part p.start + 1 ≤ 2 ^ 63
      → suc n < 2 ^ 63
      → turn_page v p
        ≡ record { start = down p.start; room = pos n; cnt = p.cnt + 1; list = p.list ++ v ∷ [] }
  unfolding turn_page down
  turn_page_take v n p z e h k = ground (arith, down_low p.start z h, down_pos n k)

  -- A value behind the page.
  turn_page_full :
      (v : V) (p : Page V)
      → pos_part p.start ≡ 0
      → pos_part p.room ≡ 0
      → neg_part p.start + 1 ≤ 2 ^ 63
      → neg_part p.room + 1 ≤ 2 ^ 63
      → turn_page v p ≡ record p { start = down p.start; room = down p.room; cnt = p.cnt + 1 }
  unfolding turn_page down
  turn_page_full v p z y h k = ground (arith, down_low p.start z h, down_low p.room y k)

  page_of-nil : (start room : ℤ) → page_of {V = V} start room [] ≡ []
  page_of-nil (pos zero) (pos zero) = refl
  page_of-nil (pos zero) (pos (suc n)) = refl
  page_of-nil (pos zero) (negsuc n) = refl
  page_of-nil (pos (suc m)) (pos zero) = refl
  page_of-nil (pos (suc m)) (pos (suc n)) = refl
  page_of-nil (pos (suc m)) (negsuc n) = refl
  page_of-nil (negsuc m) (pos zero) = refl
  page_of-nil (negsuc m) (pos (suc n)) = refl
  page_of-nil (negsuc m) (negsuc n) = refl

  abbrev Taken : List V → Page V → Type ℓ
  Taken vs p = (turn_pages vs p).list ≡ p.list ++ page_of p.start p.room vs

  Taken-step :
      (v : V) (vs : List V) (p : Page V) (a b : ℤ)
      → p.start ≡ a
      → p.room ≡ b
      → HasRoom (suc (length vs)) p
      → (HasRoom (length vs) (turn_page v p) → Taken vs (turn_page v p))
      → (turn_pages vs (turn_page v p)).list ≡ p.list ++ page_of p.start p.room (v ∷ vs)
  Taken-step v vs p (pos (suc n)) b e k h ih =
      let t = turn_page_skip v n p e (ground arith) in ground (arith, t, ih (ground (arith, t)))
  Taken-step v vs p a (pos (suc n)) e k h ih =
      let t = turn_page_take v n p (ground arith) k (ground arith) (ground arith) in
      let (low, one) = down_low p.start (ground arith) (ground arith) in
      ground
        (arith, t, low, ih (ground (arith, t, low, one)), append_assoc p.list (v ∷ []) (take n vs))
  Taken-step v vs p a b e k h ih =
      let t = turn_page_full v p (ground arith) (ground arith) (ground arith) (ground arith) in
      let (low, one) = down_low p.start (ground arith) (ground arith) in
      let (low', one') = down_low p.room (ground arith) (ground arith) in
      ground (arith, t, low, low', ih (ground (arith, t, low, one, low', one')))

  list-turn_pages : (vs : List V) (p : Page V) → HasRoom (length vs) p → Taken vs p
  unfolding turn_pages
  list-turn_pages [] p h =
      sym (ap (λ l. p.list ++ l) (page_of-nil p.start p.room) ∙ append-nil p.list)
  list-turn_pages (v ∷ vs) p h =
      Taken-step v vs p p.start p.room refl refl h (list-turn_pages vs (turn_page v p))

  -- The loop counts all the values, and lists those of the page that was asked for, in order: the
  -- first `start` are passed over (none for a negative start) and at most `room` are taken (none
  -- for a negative length), while the counters stay above the least 64-bit integer.
  pub turn_pages-page_of :
      (vs : List V) (start room : ℤ)
      → HasRoom (length vs) (first_page {V = V} start room)
      → ((turn_pages vs (first_page start room)).list ≡ page_of start room vs)
        × ((turn_pages vs (first_page start room)).cnt ≡ length vs)
  turn_pages-page_of vs start room h = (
    list-turn_pages vs (first_page start room) h,
    omega (arith, cnt-turn_pages vs (first_page start room)),
  )
