-- ===== src/Proxy/P2p/Meeting.antt =====
-- server/proxy/p2p.go: who is told whose address.
use nps_socks.Wire.{conn_data_seq}
use nps_socks.Proxy.P2p.{
  P2pServer, Event, arrives, waits, role_of, after, handle_p2p, wait, woken, introduced, told, pick,
  Waiting,
}
use nps_socks.Prelude.{
  Text, ℕ, List, Option, some, none, [], ◌∷◌, ◌==◌, text_eq, nat_eq, split_text, All, ◌≡◌, arith,
  inl, inr, Bool-cases, refl,
}
use nps_socks.Proxy.P2p.Honest.{
  IsHonest, Matches, All-append, object_of-delete, IsHonest-later, arrived-IsHonest,
}

told-Matches :
    (es : List Event) (s : P2pServer) (h : IsHonest es s) (i : ℕ) (o : Option Text) (p : Text)
    → (s.heap i).visitor_addr ≡ o
    → (s.heap i).provider_addr ≡ some p
    → All (Matches es) (told o p)
told-Matches es s h i none p at at' = tt
told-Matches es s h i (some a) p at at' =
    let x = h.visitors i a at in
    let y = h.providers i p at' in ((h.owner i, inl (x, y)), ((h.owner i, inr (y, x)), tt))

introduced-IsHonest :
    (es : List Event) (w : Waiting) (ws : List Waiting) (s : P2pServer) (o : Option Text)
    → (s.heap w.object).provider_addr ≡ o
    → IsHonest es s
    → IsHonest es (introduced w ws o s)
introduced-IsHonest es w ws s none at h = record {
  owner = h.owner;
  mapped = h.mapped;
  visitors = h.visitors;
  providers = h.providers;
  matches = h.matches;
}
introduced-IsHonest es w ws s (some p) at h = record {
  owner = h.owner;
  mapped = λ k i e. h.mapped k i (object_of-delete k w.password i s.p2p e);
  visitors = h.visitors;
  providers = h.providers;
  matches =
      All-append es s.sent (told (s.heap w.object).visitor_addr p) h.matches
        (told-Matches es s h w.object (s.heap w.object).visitor_addr p refl at);
}

woken-IsHonest :
    (es : List Event) (s : P2pServer) (o : Option (Waiting × List Waiting))
    → IsHonest es s
    → IsHonest es (woken o s)
woken-IsHonest es s none h = h
woken-IsHonest es s (some (w, ws)) h = elim (Bool-cases (w.left == 0)) [
  | inl over ↦ rw over (record {
    owner = h.owner;
    mapped = λ k i e. h.mapped k i (object_of-delete k w.password i s.p2p e);
    visitors = h.visitors;
    providers = h.providers;
    matches = h.matches;
  })
  | inr more ↦ rw more (introduced-IsHonest es w ws s (s.heap w.object).provider_addr refl h)
]

after-IsHonest : (es : List Event) → IsHonest es (after es)
unfolding handle_p2p wait
after-IsHonest [] = record {
  owner = λ i. [];
  mapped = λ k i e. absurd (ground (arith, e));
  visitors = λ i a e. absurd (ground (arith, e));
  providers = λ i a e. absurd (ground (arith, e));
  matches = tt;
}
after-IsHonest (arrives addr str ∷ es) =
    arrived-IsHonest es addr str (after es) (role_of (split_text str conn_data_seq)) refl
      (IsHonest-later (arrives addr str) es (after es) (after-IsHonest es))
after-IsHonest (waits n ∷ es) =
    woken-IsHonest (waits n ∷ es) (after es) (pick n (after es).waiting)
      (IsHonest-later (waits n) es (after es) (after-IsHonest es))

-- Whatever comes in, and whichever visitors wait how long: an address is sent only to the address of a
-- visitor whose password is that of a provider at the other, or of such a provider for a visitor.
pub after-Matches : (es : List Event) → All (Matches es) (after es).sent
after-Matches es = (after-IsHonest es).matches
