-- ===== src/Proxy/P2p/Honest.antt =====
-- server/proxy/p2p.go: every object belongs to one password.
use nps_socks.Wire.{conn_data_seq}
use nps_socks.Proxy.P2p.{
  P2pServer, Event, arrives, waits, role_of, object_of, object_for, joined, arrived,
  delete_password, Passwords,
}
use nps_socks.Prelude.{
  Text, ℕ, List, Option, Bool, some, none, true, false, not, [], ◌∷◌, ◌++◌, ◌==◌, text_eq, nat_eq,
  split_text, if◌then◌else◌, any, All, ◌≡◌, ◌<◌, arith, ◌⊎◌, inl, inr, ==_iff, ==_refl, Bool-cases,
  refl, sym, ap, ◌∙◌, subst, ◌&&◌, some_inj,
}

-- Whether a role is that of a visitor, or of a provider, with the password.
abbrev is_role : Text → Bool → Option (Text × Bool) → Bool
is_role password visitor none = false
is_role password visitor (some (k, r)) = k == password && (if visitor then r else not r)

-- Whether a datagram with the password came from the address.
abbrev is_from : Text → Bool → Text → Event → Bool
is_from password visitor a (arrives addr str) =
    addr == a && is_role password visitor (role_of (split_text str conn_data_seq))
is_from password visitor a (waits n) = false

-- A visitor, or a provider, with the password came from the address.
abbrev pub Came : Text → Bool → Text → List Event → Type 0
Came password visitor a es = any (is_from password visitor a) es ≡ true

-- A visitor is told the address of a provider with its password, or the other way round.
abbrev pub Matches : List Event → Text × Text → Type 0
Matches es (to, addr) =
    (password : Text) × ((Came password true to es × Came password false addr es)
      ⊎ (Came password false to es × Came password true addr es))

Came-later :
    (e : Event) (es : List Event) (password : Text) (v : Bool) (a : Text)
    → Came password v a es
    → Came password v a (e ∷ es)
Came-later e es password v a h = ground (arith, h)

Matches-later : (e : Event) (es : List Event) (m : Text × Text) → Matches es m → Matches (e ∷ es) m
Matches-later e es (to, addr) (k, inl (x, y)) =
    (k, inl (Came-later e es k true to x, Came-later e es k false addr y))
Matches-later e es (to, addr) (k, inr (x, y)) =
    (k, inr (Came-later e es k false to x, Came-later e es k true addr y))

All-Matches-later :
    (e : Event) (es : List Event) (ms : List (Text × Text))
    → All (Matches es) ms
    → All (Matches (e ∷ es)) ms
All-Matches-later e es [] h = h
All-Matches-later e es (m ∷ ms) (h, hs) = (Matches-later e es m h, All-Matches-later e es ms hs)

pub All-append :
    (es : List Event) (xs ys : List (Text × Text))
    → All (Matches es) xs
    → All (Matches es) ys
    → All (Matches es) (xs ++ ys)
All-append es [] ys h k = k
All-append es (x ∷ xs) ys (h, hs) k = (h, All-append es xs ys hs k)

pub object_of-delete_self : (q : Text) (m : Passwords) → object_of q (delete_password q m) ≡ none
object_of-delete_self q [] = refl
object_of-delete_self q ((j, n) ∷ m) = ground (arith, object_of-delete_self q m)

pub object_of-delete :
    (k q : Text) (i : ℕ) (m : Passwords)
    → object_of k (delete_password q m) ≡ some i
    → object_of k m ≡ some i
object_of-delete k q i [] e = e
object_of-delete k q i ((j, n) ∷ m) e = elim (Bool-cases (j == q)) [
  | inl same ↦
      let at = rw same at e in
      elim (Bool-cases (j == k)) [
        | inl same' ↦
            absurd
              (ground (arith, at, object_of-delete_self q m, ==_iff j q, ==_iff j k, same, same'))
        | inr other ↦ rw other (object_of-delete k q i m at)
      ]
  | inr other ↦ ground (arith, rw other at e, object_of-delete k q i m)
]

-- Every object belongs to one password, whose visitors and providers it holds.
pub record IsHonest (es : List Event) (s : P2pServer) : Type 0 where
  pub owner : ℕ → Text
  pub mapped : (k : Text) (i : ℕ) → object_of k s.p2p ≡ some i → (owner i ≡ k) × (i < s.next)
  pub visitors : (i : ℕ) (a : Text) → (s.heap i).visitor_addr ≡ some a → Came (owner i) true a es
  pub providers : (i : ℕ) (a : Text) → (s.heap i).provider_addr ≡ some a → Came (owner i) false a es
  pub matches : All (Matches es) s.sent

pub IsHonest-later :
    (e : Event) (es : List Event) (s : P2pServer) → IsHonest es s → IsHonest (e ∷ es) s
IsHonest-later e es s h = record {
  owner = h.owner;
  mapped = h.mapped;
  visitors = λ i a at. Came-later e es (h.owner i) true a (h.visitors i a at);
  providers = λ i a at. Came-later e es (h.owner i) false a (h.providers i a at);
  matches = All-Matches-later e es s.sent h.matches;
}

before : (n i : ℕ) → i < n → (n == i) ≡ false
before n i h = ground (arith, ==_iff n i)

==_true : (n i : ℕ) → n ≡ i → (n == i) ≡ true
==_true n i h = ground (arith, ==_iff n i)

-- What the object of a password is, owned by it.
record Owned (es : List Event) (password : Text) (r : P2pServer × ℕ) : Type 0 where
  honest : IsHonest es r.0
  owned : honest.owner r.1 ≡ password
  old : r.1 < r.0.next

object_for-Owned :
    (es : List Event) (k : Text) (s : P2pServer)
    → IsHonest es s
    → (o : Option ℕ) → object_of k s.p2p ≡ o
    → Owned es k (object_for k o s)
object_for-Owned es k s h (some i) at =
    let (mine, old) = h.mapped k i at in record { honest = h; owned = mine; old = old }
object_for-Owned es k s h none at = record {
  honest = record {
    owner = λ j. if s.next == j then k else h.owner j;
    mapped = λ q i e. elim (Bool-cases (k == q)) [
      | inl same ↦
          let here = some_inj (rw same at e) in
          (rw (==_true s.next i here) ((==_iff k q).0 same), omega (arith, here))
      | inr other ↦
          let (mine, old) = h.mapped q i (rw other at e) in
          (rw (before s.next i old) mine, omega (arith, old))
    ];
    visitors = λ i a e. elim (Bool-cases (s.next == i)) [
      | inl same ↦ absurd (ground (arith, rw same at e))
      | inr other ↦ rw other (h.visitors i a (rw other at e))
    ];
    providers = λ i a e. elim (Bool-cases (s.next == i)) [
      | inl same ↦ absurd (ground (arith, rw same at e))
      | inr other ↦ rw other (h.providers i a (rw other at e))
    ];
    matches = h.matches;
  };
  owned = rw (==_refl s.next) refl;
  old = omega arith;
}

-- A datagram of the object's password keeps what the objects hold.
joined-IsHonest :
    (es : List Event) (v : Bool) (addr k : Text) (r : P2pServer × ℕ)
    → Owned es k r
    → Came k v addr es
    → IsHonest es (joined v addr k r)
joined-IsHonest es true addr k (s, i) o came =
    let h = o.honest in
    record {
      owner = h.owner;
      mapped = h.mapped;
      visitors = λ j a e. elim (Bool-cases (i == j)) [
        | inl same ↦
            let own = sym (o.owned) ∙ ap h.owner ((==_iff i j).0 same) in
            subst (λ t. Came t true a es) own
              (subst (λ t. Came k true t es) (some_inj (rw same at e)) came)
        | inr other ↦ h.visitors j a (rw other at e)
      ];
      providers = λ j a e. elim (Bool-cases (i == j)) [
        | inl same ↦
            subst (λ n. Came (h.owner n) false a es) ((==_iff i j).0 same)
              (h.providers i a (rw same at e))
        | inr other ↦ h.providers j a (rw other at e)
      ];
      matches = h.matches;
    }
joined-IsHonest es false addr k (s, i) o came =
    let h = o.honest in
    record {
      owner = h.owner;
      mapped = h.mapped;
      visitors = λ j a e. elim (Bool-cases (i == j)) [
        | inl same ↦
            subst (λ n. Came (h.owner n) true a es) ((==_iff i j).0 same)
              (h.visitors i a (rw same at e))
        | inr other ↦ h.visitors j a (rw other at e)
      ];
      providers = λ j a e. elim (Bool-cases (i == j)) [
        | inl same ↦
            let own = sym (o.owned) ∙ ap h.owner ((==_iff i j).0 same) in
            subst (λ t. Came t false a es) own
              (subst (λ t. Came k false t es) (some_inj (rw same at e)) came)
        | inr other ↦ h.providers j a (rw other at e)
      ];
      matches = h.matches;
    }

is_role_self : (k : Text) (v : Bool) → is_role k v (some (k, v)) ≡ true
is_role_self k true = ground (arith, ==_refl k)
is_role_self k false = ground (arith, ==_refl k)

Came-now :
    (es : List Event) (addr str k : Text) (v : Bool)
    → role_of (split_text str conn_data_seq) ≡ some (k, v)
    → Came k v addr (arrives addr str ∷ es)
Came-now es addr str k v at = rw (at, ==_refl addr, is_role_self k v) refl

pub arrived-IsHonest :
    (es : List Event) (addr str : Text) (s : P2pServer) (role : Option (Text × Bool))
    → role_of (split_text str conn_data_seq) ≡ role
    → IsHonest (arrives addr str ∷ es) s
    → IsHonest (arrives addr str ∷ es) (arrived addr role s)
arrived-IsHonest es addr str s none at h = h
arrived-IsHonest es addr str s (some (k, v)) at h =
    joined-IsHonest (arrives addr str ∷ es) v addr k (object_for k (object_of k s.p2p) s)
      (object_for-Owned (arrives addr str ∷ es) k s h (object_of k s.p2p) refl)
      (Came-now es addr str k v at)
