-- ===== src/Proxy/P2p/Introduction.antt =====
-- server/proxy/p2p.go: a visitor and a provider that come in time are told each other's address.
use nps_socks.Proxy.P2p.Honest.{object_of-delete_self}
use nps_socks.Wire.{conn_data_seq}
use nps_socks.Proxy.P2p.{
  P2pServer, role_of, handle_p2p, wait, object_of, object_for, joined, arrived, Waiting,
}
use nps_socks.Prelude.{
  Text, ℕ, some, none, true, false, [], ◌∷◌, ◌++◌, ◌==◌, text_eq, nat_eq, split_text, suc, zero,
  ◌≡◌, ◌<◌, ◌+◌, ◌-◌, arith, ==_iff, ==_refl, refl, sym, subst,
}

-- Rounds of the visitor that has waited longest.
abbrev pub rounds : ℕ → P2pServer → P2pServer
rounds zero s = s
rounds (suc n) s = rounds n (wait 0 s)

not_over : (l : ℕ) → (suc l == 0) ≡ false
not_over l = ground (arith, ==_iff (suc l) 0)

one_less : (l : ℕ) → suc l - 1 ≡ l
one_less l = omega arith

add_zero : (l : ℕ) → 0 + l ≡ l
add_zero l = omega arith

add_suc : (n l : ℕ) → suc n + l ≡ suc (n + l)
add_suc n l = omega arith

-- With no provider, a round only takes one of the rounds that are left.
wait-idle :
    (l : ℕ) (w : Waiting) (s : P2pServer)
    → (s.heap w.object).provider_addr ≡ none
    → wait 0 (record s { waiting = record w { left = suc l } ∷ [] })
      ≡ record s { waiting = record w { left = l } ∷ [] }
unfolding wait
wait-idle l w s e = rw (e, not_over l, one_less l) refl

rounds-idle :
    (n l : ℕ) (w : Waiting) (s : P2pServer)
    → (s.heap w.object).provider_addr ≡ none
    → rounds n (record s { waiting = record w { left = n + l } ∷ [] })
      ≡ record s { waiting = record w { left = l } ∷ [] }
rounds-idle zero l w s e = rw (add_zero l) refl
rounds-idle (suc n) l w s e = rw (add_suc n l, wait-idle (n + l) w s e) (rounds-idle n l w s e)

-- The server when a visitor at `a` has come with a new password.
abbrev expecting : Text → Text → P2pServer → P2pServer
expecting a k s = joined true a k (object_for k none (record s { waiting = [] }))

abbrev waiter : Text → P2pServer → Waiting
waiter k s = record { password = k; object = s.next; left = 0 }

abbrev pub Met : Text → Text → Text → P2pServer → P2pServer → Type 0
Met a b k s met =
    (met.sent ≡ s.sent ++ ((a, b) ∷ ((b, a) ∷ [])))
    × (met.waiting ≡ [])
    × (object_of k met.p2p ≡ none)

-- What a provider's datagram and one more round make of it.
wait-Met :
    (s : P2pServer) (l : ℕ) (a b k : Text)
    → Met a b k s (
        wait 0 (
          arrived b (some (k, false)) (record (expecting a k s) {
            waiting = record { password = k; object = s.next; left = suc l } ∷ [];
          })))
unfolding wait
wait-Met s l a b k =
    rw (==_refl k, not_over l, ==_refl s.next)
      (rw (==_refl s.next) refl, refl, rw (==_refl k) (object_of-delete_self k s.p2p))

-- What the rounds before the provider leave.
rounds-expecting :
    (s : P2pServer) (n : ℕ) (a k : Text)
    → n < 20
    → rounds n (expecting a k s)
      ≡ record (expecting a k s) { waiting = record (waiter k s) { left = suc (19 - n) } ∷ [] }
rounds-expecting s n a k early =
    subst
      (λ m.
        rounds n (record (expecting a k s) { waiting = record (waiter k s) { left = m } ∷ [] })
        ≡ record (expecting a k s) { waiting = record (waiter k s) { left = suc (19 - n) } ∷ [] })
      (omega (arith, early))
      (rounds-idle n (suc (19 - n)) (waiter k s) (expecting a k s) (rw (==_refl s.next) refl))

-- No visitor waits and the server knows nothing of a password. A visitor with it comes, and, after fewer
-- than twenty rounds in which nothing else comes, a provider with it: in its next round the visitor is sent
-- the provider's address and the provider the visitor's, and the password is forgotten.
pub handle_p2p-Met :
    (s : P2pServer) (n : ℕ) (a b k visitor provider : Text)
    → s.waiting ≡ []
    → object_of k s.p2p ≡ none
    → role_of (split_text visitor conn_data_seq) ≡ some (k, true)
    → role_of (split_text provider conn_data_seq) ≡ some (k, false)
    → n < 20
    → Met a b k s (wait 0 (handle_p2p b provider (rounds n (handle_p2p a visitor s))))
handle_p2p-Met s n a b k visitor provider alone new v p early =
    subst
      (λ ws. Met a b k s (
        wait 0
          (handle_p2p b provider (rounds n (handle_p2p a visitor (record s { waiting = ws }))))))
      (sym alone)
      (unfold handle_p2p in
        rw (v, new, rounds-expecting s n a k early, p) (wait-Met s (19 - n) a b k))
