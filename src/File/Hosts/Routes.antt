-- ===== src/File/Hosts/Routes.antt =====
-- lib/file/db.go, `GetInfoByHost`: the route of a request is the longest that fits.
use nps_socks.File.JsonDb.{JsonDb}
use nps_socks.File.Obj.{Host}
use nps_socks.Prelude.{
  Text, List, Option, has_prefix, ◌≡◌, true, All, length, ◌≤◌, ◌∷◌, some, ◌⊎◌, inl, none, false,
  arith, [], Bool-cases, ◌&&◌, Option-cases, inr, ltb, refl,
}
use nps_socks.File.Hosts.{choose, choose_all, get_info_by_host, candidates}

abbrev Fits : Text → Host → Type 0
Fits uri v = has_prefix uri v.location ≡ true

abbrev pub Among : Host → List Host → Type 0
Among h [] = ⊥
Among h (v ∷ vs) = (h ≡ v) ⊎ Among h vs

-- No fitting host of the list has a longer location.
abbrev pub IsLongest : Text → Host → List Host → Type 0
IsLongest uri h = All (λ v. Fits uri v → length v.location ≤ length h.location)

-- What the second loop returns for the hosts `vs`, after it had `before`.
abbrev Best : Text → List Host → Option Host → Option Host → Type 0
Best uri vs none none = All (λ v. has_prefix uri v.location ≡ false) vs
Best uri vs (some b) none = ⊥
Best uri vs none (some h) = Fits uri h × IsLongest uri h vs × Among h vs
Best uri vs (some b) (some h) =
    Fits uri h
    × IsLongest uri h vs
    × ((h ≡ b) ⊎ Among h vs)
    × (length b.location ≤ length h.location)

abbrev FitsBefore : Text → Option Host → Type 0
FitsBefore uri none = Unit
FitsBefore uri (some b) = Fits uri b

-- One more host at the front.
Best-none :
    (uri : Text) (v : Host) (vs : List Host) (r : Option Host)
    → Best uri vs (choose uri none v) r
    → Best uri (v ∷ vs) none r
unfolding choose
Best-none uri v vs none h = elim (Bool-cases (has_prefix uri v.location)) [
  | inl fit ↦ absurd (rw fit at h)
  | inr unfit ↦ (unfit, rw unfit at h)
]
Best-none uri v vs (some r) h = elim (Bool-cases (has_prefix uri v.location)) [
  | inl fit ↦ let k : Best uri vs (some v) (some r) = rw fit at h in (k.0, (λ f. k.3, k.1), k.2)
  | inr unfit ↦
      let k : Best uri vs none (some r) = rw unfit at h in
      (k.0, (λ f. absurd (cc (f, unfit)), k.1), inr k.2)
]

Best-some :
    (uri : Text) (v b : Host) (vs : List Host) (r : Option Host)
    → Best uri vs (choose uri (some b) v) r
    → Best uri (v ∷ vs) (some b) r
unfolding choose
Best-some uri v b vs none h =
    elim (Bool-cases (has_prefix uri v.location && ltb (length b.location) (length v.location))) [
      | inl longer ↦ rw longer at h
      | inr shorter ↦ rw shorter at h
    ]
Best-some uri v b vs (some r) h =
    elim (Bool-cases (has_prefix uri v.location && ltb (length b.location) (length v.location))) [
      | inl longer ↦
          let k : Best uri vs (some v) (some r) = rw longer at h in
          (k.0, (λ f. k.3, k.1), inr k.2, ground (arith, k.3))
      | inr shorter ↦
          let k : Best uri vs (some b) (some r) = rw shorter at h in
          (k.0, (λ f. ground (arith, k.3), k.1), shift k.2, k.3)
    ]
  where
    shift : (r ≡ b) ⊎ Among r vs → (r ≡ b) ⊎ Among r (v ∷ vs)
    shift (inl e) = inl e
    shift (inr m) = inr (inr m)

choose-FitsBefore :
    (uri : Text) (v : Host) (before : Option Host)
    → FitsBefore uri before
    → FitsBefore uri (choose uri before v)
unfolding choose
choose-FitsBefore uri v none h = ground arith
choose-FitsBefore uri v (some b) h = ground arith

choose_all-Best :
    (uri : Text) (vs : List Host) (before : Option Host)
    → FitsBefore uri before
    → Best uri vs before (choose_all uri before vs)
unfolding choose_all
choose_all-Best uri [] none h = tt
choose_all-Best uri [] (some b) h = (h, tt, inl refl, omega arith)
choose_all-Best uri (v ∷ vs) none h =
    Best-none uri v vs (choose_all uri (choose uri none v) vs)
      (choose_all-Best uri vs (choose uri none v) (choose-FitsBefore uri v none h))
choose_all-Best uri (v ∷ vs) (some b) h =
    Best-some uri v b vs (choose_all uri (choose uri (some b) v) vs)
      (choose_all-Best uri vs (choose uri (some b) v) (choose-FitsBefore uri v (some b) h))

-- A request is given no host exactly when no candidate's location begins its URI. Otherwise its
-- host is a candidate whose location begins the URI, and no candidate with a longer one does.
pub get_info_by_host-IsLongest :
    (host scheme uri : Text) (s : JsonDb)
    → (((get_info_by_host host scheme uri s).1 ≡ none)
        × All (λ v. has_prefix uri v.location ≡ false) (candidates host scheme s))
      ⊎ ((h : Host) × ((get_info_by_host host scheme uri s).1 ≡ some h)
          × (has_prefix uri h.location ≡ true)
          × IsLongest uri h (candidates host scheme s)
          × Among h (candidates host scheme s))
unfolding get_info_by_host
get_info_by_host-IsLongest host scheme uri s =
    let vs = candidates host scheme s in
    let best = choose_all-Best uri vs none tt in
    elim (Option-cases (choose_all uri none vs)) [
      | inl missed ↦ inl (missed, rw missed at best)
      | inr (h, hit) ↦
          let k : Best uri vs none (some h) = rw hit at best in inr (h, hit, k.0, k.1, k.2)
    ]
