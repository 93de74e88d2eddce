-- ===== src/Rate/Racing/Paces.antt =====
-- lib/rate/rate.go: what each step on a shared bucket keeps.
use nps_socks.Rate.Racing.{looks, Shared, take_out, withdrawn, read, added, act}
use nps_socks.Rate.{Rate, has_surplus, addition}
use nps_socks.Prelude.{
  ℕ, zero, suc, ◌+◌, ◌*◌, ◌^◌, ◌≤◌, ◌<◌, ◌≡◌, ◌⊎◌, inl, inr, refl, List, [], ◌∷◌, All, Option, none,
  some, length, ℤ, pos, negsuc, pos_part, neg_part, ◌+ℤ◌, ◌-ℤ◌, wrap64, wrap64_in_range, +ℤ_parts,
  -ℤ_parts, arith, ltb, ◌&&◌, ap, ◌∙◌, Bool-cases, sym, subst, some_inj, Option-cases, eq_of_parts,
  ltb_ℤ,
}

unfoldable pub total : List ℕ → ℕ
total [] = 0
total (n ∷ ns) = n + total ns

-- What is about to be added is nothing, or `p`.
unfoldable pub IsAdding : ℕ → Option ℤ → Type 0
IsAdding p o = ((o ≡ none) × (p ≡ 0)) ⊎ (o ≡ some (pos p))

-- After `t` ticks of `a` bytes: the surplus, with what is about to be taken, is not below -c.
pub record Paced (a c m k t : ℕ) (s : Shared) : Type 0 where
  pub p : ℕ
  pub size : s.rate.bucket_size ≡ pos (a + a)
  pub add_size : s.rate.bucket_add_size ≡ pos a
  pub adding : IsAdding p s.adding
  pub small : p ≤ a
  pub low :
      neg_part s.rate.bucket_surplus_size + total s.taking ≤ pos_part s.rate.bucket_surplus_size + c
  pub high : pos_part s.rate.bucket_surplus_size + p ≤ a + a + neg_part s.rate.bucket_surplus_size
  pub sum :
      s.taken + pos_part s.rate.bucket_surplus_size + p
      ≤ a * t + neg_part s.rate.bucket_surplus_size
  pub fits : All (λ n. n ≤ m) s.taking
  pub few : length s.taking ≤ k

is_adding : (p : ℕ) (o : Option ℤ) (d : ℤ) → IsAdding p o → o ≡ some d → d ≡ pos p
unfolding IsAdding
is_adding p o d (inl (absent, z)) at = absurd (ground (arith, absent, at))
is_adding p o d (inr there) at = some_inj (sym at ∙ there)

total_le : (m j : ℕ) (ns : List ℕ) → All (λ n. n ≤ m) ns → length ns ≤ j → total ns ≤ j * m
unfolding total
total_le m j [] h l = omega arith
total_le m zero (n ∷ ns) h l = absurd (omega (arith, l))
total_le m (suc j) (n ∷ ns) (x, h) l = omega (arith, x, total_le m j ns h (omega (arith, l)))

pub one_part : (u : ℤ) → (pos_part u ≡ 0) ⊎ (neg_part u ≡ 0)
one_part (pos n) = inr refl
one_part (negsuc n) = inl refl

-- What is taken out of a list, and what is left.
pub record Out (ns : List ℕ) (n : ℕ) (rest : List ℕ) : Type 0 where
  sums : total ns ≡ n + total rest
  fewer : length rest ≤ length ns
  pub fits : (m : ℕ) → All (λ n. n ≤ m) ns → All (λ n. n ≤ m) rest

pub take_out-Out :
    (i : ℕ) (ns : List ℕ) (n : ℕ) (rest : List ℕ) → take_out i ns ≡ some (n, rest) → Out ns n rest
unfolding total
take_out-Out i [] n rest e = absurd (ground (arith, e))
take_out-Out zero (x ∷ ns) n rest e =
    subst (λ r. Out (x ∷ ns) r.0 r.1) (some_inj e)
      (record { sums = refl; fewer = omega arith; fits = λ m h. h.1 })
take_out-Out (suc i) (x ∷ ns) n rest e = elim (Option-cases (take_out i ns)) [
  | inl short ↦ absurd (ground (arith, rw short at e))
  | inr ((y, left), at) ↦
      let o = take_out-Out i ns y left at in
      subst (λ r. Out (x ∷ ns) r.0 r.1) (some_inj (rw at at e))
        (record {
          sums = omega (arith, o.sums);
          fewer = omega (arith, o.fewer);
          fits = λ m h. (h.0, o.fits m h.1);
        })
]

module _ (a j m : ℕ) (bounded : a + a + j * m < 2 ^ 63) where
  pub Paced-looks :
      (n t : ℕ) (s : Shared)
      → n ≤ m
      → Paced a (j * m) m (suc j) t s
      → Paced a (j * m) m (suc j) t (act (suc j) (looks n) s)
  unfolding act
  Paced-looks n t s fit h =
      elim (Bool-cases (ltb (length s.taking) (suc j) && has_surplus (pos n) s.rate)) [
        | inr no_look ↦ rw no_look h
        | inl passed ↦
            let room : length s.taking ≤ j = ground (arith, passed) in
            let enough : n + neg_part s.rate.bucket_surplus_size
                ≤ pos_part s.rate.bucket_surplus_size =
              ground (arith, passed) in
            rw passed (record {
              p = h.p;
              size = h.size;
              add_size = h.add_size;
              adding = h.adding;
              small = h.small;
              low = unfold total in omega (arith, enough, total_le m j s.taking h.fits room);
              high = h.high;
              sum = h.sum;
              fits = (fit, h.fits);
              few = omega (arith, room);
            })
      ]

  pub Paced-withdrawn :
      (t : ℕ) (s : Shared) (n : ℕ) (rest : List ℕ)
      → Out s.taking n rest
      → Paced a (j * m) m (suc j) t s
      → Paced a (j * m) m (suc j) t (withdrawn (some (n, rest)) s)
  Paced-withdrawn t s n rest o h =
      let u = s.rate.bucket_surplus_size in
      let v = u -ℤ pos n in
      let parts = -ℤ_parts u (pos n) in
      let here : wrap64 v ≡ v = wrap64_in_range v (elim (one_part v) [
        | inl z ↦ ((omega (arith, z)), omega (arith, z, parts, h.low, o.sums, bounded))
        | inr z ↦ (omega (arith, z, parts, h.high, h.low, bounded, one_part u), omega (arith, z))
      ]) in
      record {
        p = h.p;
        size = h.size;
        add_size = h.add_size;
        adding = h.adding;
        small = h.small;
        low = rw here omega (arith, parts, h.low, o.sums);
        high = rw here omega (arith, parts, h.high);
        sum = rw here omega (arith, parts, h.sum);
        fits = o.fits m h.fits;
        few = omega (arith, o.fewer, h.few);
      }

  -- What the session adds is a natural number that fits into the bucket.
  addition-pos :
      (r : Rate)
      → r.bucket_size ≡ pos (a + a)
      → r.bucket_add_size ≡ pos a
      → pos_part r.bucket_surplus_size ≤ a + a + neg_part r.bucket_surplus_size
      → neg_part r.bucket_surplus_size ≤ pos_part r.bucket_surplus_size + j * m
      → (p : ℕ) × (addition r.bucket_add_size r ≡ pos p)
        × (p ≤ a)
        × (pos_part r.bucket_surplus_size + p ≤ a + a + neg_part r.bucket_surplus_size)
  addition-pos r size add_size high low =
      let u = r.bucket_surplus_size in
      let v = r.bucket_size -ℤ u in
      let parts = -ℤ_parts r.bucket_size u in
      let size_pos = ap pos_part size in
      let size_neg = ap neg_part size in
      let none_below : neg_part v ≡ 0 =
        omega (arith, parts, size_pos, size_neg, high, one_part v) in
      let in_range : wrap64 v ≡ v = wrap64_in_range v (
        omega (arith, none_below, parts, size_pos, size_neg, low, one_part u, bounded),
        omega (arith, none_below),
      ) in
      let exact : v ≡ pos (pos_part v) =
        eq_of_parts v (pos (pos_part v)) (omega (arith, none_below)) in
      elim (Bool-cases (ltb_ℤ (wrap64 v) r.bucket_add_size)) [
        | inl less ↦ (
          pos_part v,
          rw less (in_range ∙ exact),
          ground (arith, rw in_range at less, ap pos_part add_size, ap neg_part add_size),
          omega (arith, none_below, parts, size_pos, size_neg),
        )
        | inr more ↦ (
          a,
          rw more add_size,
          omega arith,
          ground (
            arith,
            rw in_range at more,
            ap pos_part add_size,
            ap neg_part add_size,
            none_below,
            parts,
            size_pos,
            size_neg,
          ),
        )
      ]

  pub Paced-read :
      (o : Option ℤ) (t : ℕ) (s : Shared)
      → s.adding ≡ o
      → Paced a (j * m) m (suc j) t s
      → Paced a (j * m) m (suc j) (t + 1) (read o s)
  unfolding IsAdding
  Paced-read (some d) t s at h = record {
    p = h.p;
    size = h.size;
    add_size = h.add_size;
    adding = h.adding;
    small = h.small;
    low = h.low;
    high = h.high;
    sum = omega (arith, h.sum);
    fits = h.fits;
    few = h.few;
  }
  Paced-read none t s at h =
      let (p, is, small, room) =
        addition-pos s.rate h.size h.add_size (omega (arith, h.high)) (omega (arith, h.low)) in
      record {
        p = p;
        size = h.size;
        add_size = h.add_size;
        adding = inr (ap some is);
        small = small;
        low = h.low;
        high = room;
        sum = omega (arith, h.sum, small);
        fits = h.fits;
        few = h.few;
      }

  pub Paced-added :
      (o : Option ℤ) (t : ℕ) (s : Shared)
      → s.adding ≡ o
      → Paced a (j * m) m (suc j) t s
      → Paced a (j * m) m (suc j) t (added o s)
  unfolding IsAdding
  Paced-added none t s at h = h
  Paced-added (some d) t s at h =
      let u = s.rate.bucket_surplus_size in
      let is : d ≡ pos h.p = is_adding h.p s.adding d h.adding at in
      let v = u +ℤ d in
      let parts = +ℤ_parts u d in
      let d_pos = ap pos_part is in
      let d_neg = ap neg_part is in
      let here : wrap64 v ≡ v = wrap64_in_range v (elim (one_part v) [
        | inl z ↦
            (omega (arith, z), omega (arith, z, parts, d_pos, d_neg, h.low, one_part u, bounded))
        | inr z ↦ (
          omega (arith, z, parts, d_pos, d_neg, h.high, h.low, bounded, one_part u),
          omega (arith, z),
        )
      ]) in
      record {
        p = 0;
        size = h.size;
        add_size = h.add_size;
        adding = inl (refl, refl);
        small = omega arith;
        low = rw here (omega (arith, parts, d_pos, d_neg, h.low));
        high = rw here (omega (arith, parts, d_pos, d_neg, h.high));
        sum = rw here (omega (arith, parts, d_pos, d_neg, h.sum));
        fits = h.fits;
        few = h.few;
      }
