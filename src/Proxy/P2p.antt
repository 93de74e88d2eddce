-- ===== src/Proxy/P2p.antt =====
-- server/proxy/p2p.go: the server where two clients behind firewalls learn each other's address. An address
-- is its text. The objects that the map points to live in a heap, since a waiting visitor keeps its object
-- when the map has forgotten it.
pub mod Honest
pub mod Introduction
pub mod Meeting
use nps_socks.Wire.{conn_data_seq}
use nps_socks.Prelude.{
  Text, ℕ, List, Option, Bool, some, none, true, false, [], ◌∷◌, ◌++◌, ◌==◌, text_eq, nat_eq, codes,
  split_text, if◌then◌else◌, suc, zero, ◌-◌,
}

pub record P2p : Type 0 where
  pub visitor_addr : Option Text
  pub provider_addr : Option Text

abbrev pub new_p2p : P2p
new_p2p = record { visitor_addr = none; provider_addr = none }

-- The map from passwords to objects.
abbrev pub Passwords : Type 0
Passwords = List (Text × ℕ)

abbrev pub object_of : Text → Passwords → Option ℕ
object_of password [] = none
object_of password ((k, i) ∷ m) = if k == password then some i else object_of password m

abbrev pub delete_password : Text → Passwords → Passwords
delete_password password [] = []
delete_password password ((k, i) ∷ m) =
    let rest = delete_password password m in if k == password then rest else (k, i) ∷ rest

-- A visitor in its loop, with the rounds that are left.
pub record Waiting : Type 0 where
  pub password : Text
  pub object : ℕ
  pub left : ℕ

-- `sent` holds the addresses that something was sent to, each with what was sent.
pub record P2pServer : Type 0 where
  pub p2p : Passwords
  pub heap : ℕ → P2p
  pub next : ℕ
  pub waiting : List Waiting
  pub sent : List (Text × Text)

abbrev pub new_p2p_server : P2pServer
new_p2p_server = record { p2p = []; heap = λ i. new_p2p; next = 0; waiting = []; sent = [] }

abbrev pub write_heap : ℕ → P2p → (ℕ → P2p) → ℕ → P2p
write_heap i v heap j = if i == j then v else heap j

-- The password of a datagram, and whether a visitor sent it.
abbrev pub role_of : List Text → Option (Text × Bool)
role_of [] = none
role_of (password ∷ []) = none
role_of (password ∷ (role ∷ more)) = some (password, role == codes "p2pv")

-- The object of a password, a new one if there is none.
abbrev pub object_for : Text → Option ℕ → P2pServer → P2pServer × ℕ
object_for password (some i) s = (s, i)
object_for password none s = (
  record s {
    p2p = (password, s.next) ∷ s.p2p;
    heap = write_heap s.next new_p2p s.heap;
    next = suc s.next;
  },
  s.next,
)

abbrev pub joined : Bool → Text → Text → P2pServer × ℕ → P2pServer
joined true addr password (s, i) = record s {
  heap = write_heap i (record (s.heap i) { visitor_addr = some addr }) s.heap;
  waiting = s.waiting ++ (record { password = password; object = i; left = 20 } ∷ []);
}
joined false addr password (s, i) = record s {
  heap = write_heap i (record (s.heap i) { provider_addr = some addr }) s.heap;
}

abbrev pub arrived : Text → Option (Text × Bool) → P2pServer → P2pServer
arrived addr none s = s
arrived addr (some (password, is_visitor)) s =
    joined is_visitor addr password (object_for password (object_of password s.p2p) s)

-- `handleP2P` up to the loop of a visitor
unfoldable pub handle_p2p : Text → Text → P2pServer → P2pServer
handle_p2p addr str s = arrived addr (role_of (split_text str conn_data_seq)) s

-- What a visitor and a provider are sent.
abbrev pub told : Option Text → Text → List (Text × Text)
told none provider = []
told (some visitor) provider = (visitor, provider) ∷ ((provider, visitor) ∷ [])

abbrev pub introduced : Waiting → List Waiting → Option Text → P2pServer → P2pServer
introduced w others none s = record s { waiting = others ++ (record w { left = w.left - 1 } ∷ []) }
introduced w others (some provider) s = record s {
  waiting = others;
  p2p = delete_password w.password s.p2p;
  sent = s.sent ++ told (s.heap w.object).visitor_addr provider;
}

abbrev pub woken : Option (Waiting × List Waiting) → P2pServer → P2pServer
woken none s = s
woken (some (w, others)) s =
    if w.left == 0
    then record s { waiting = others; p2p = delete_password w.password s.p2p }
    else introduced w others (s.heap w.object).provider_addr s

abbrev pub pick : ℕ → List Waiting → Option (Waiting × List Waiting)
pick n [] = none
pick zero (w ∷ ws) = some (w, ws)
pick (suc n) (w ∷ ws) = elim (pick n ws) [ none ↦ none | some (v, others) ↦ some (v, w ∷ others) ]

-- One round of the loop of the n-th visitor that waits.
unfoldable pub wait : ℕ → P2pServer → P2pServer
wait n s = woken (pick n s.waiting) s

-- What may happen: a datagram with its address, or a round of a visitor.
pub data Event : Type 0 where
  arrives : Text → Text → Event
  waits : ℕ → Event

abbrev pub step : Event → P2pServer → P2pServer
step (arrives addr str) s = handle_p2p addr str s
step (waits n) s = wait n s

-- The server after what happened, the latest first.
abbrev pub after : List Event → P2pServer
after [] = new_p2p_server
after (e ∷ es) = step e (after es)
