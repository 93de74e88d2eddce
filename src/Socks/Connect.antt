-- ===== src/Socks/Connect.antt =====
-- server/proxy/socks5.go: what a well-behaved client gets from the SOCKS5 handshake.
use nps_socks.Common.Bytes.{put_uint16}
use nps_socks.Prelude.{
  Text, ℕ, ◌∷◌, length, ◌<◌, ◌++◌, ◌≡◌, false, some, [], arith, take-length-append,
  drop-length-append, length-append, refl, ap, ◌-◌, ==_refl, ◌∙◌, true, nat_eq, Bool, if◌then◌else◌,
  ◌||◌, not, ◌==◌,
}
use mathlib.Core.List.{append-nil}
use nps_socks.Socks.{
  Tunnel, handle_request, do_connect, read_address, tunnel, with_port, filled, handle_conn,
  requires_auth, after_methods, auth, check, right, after_auth, Outcome, request_after, hung_up,
}
use nps_socks.Net.{read, read_full, Chunks}

read-append :
    (s t : Text) (cs : Chunks) → 0 < length t → read (length s) ((s ++ t) ∷ cs) ≡ (t ∷ cs, s, false)
unfolding read
read-append s [] cs h = absurd (omega arith)
read-append [] (x ∷ t) cs h = refl
read-append (y ∷ s) (x ∷ t) cs h = ground (
  arith,
  take-length-append (y ∷ s) (x ∷ t),
  drop-length-append (y ∷ s) (x ∷ t),
  length-append s (x ∷ t),
)

read_full-append :
    (s t : Text) (cs : Chunks)
    → 0 < length t
    → read_full (length s) ((s ++ t) ∷ cs) ≡ (t ∷ cs, some s)
unfolding read_full
read_full-append s [] cs h = absurd (omega arith)
read_full-append [] (x ∷ t) cs h = refl
read_full-append (y ∷ s) (x ∷ t) cs h = ground (
  arith,
  take-length-append (y ∷ s) (x ∷ t),
  drop-length-append (y ∷ s) (x ∷ t),
  length-append s (x ∷ t),
)

read_full-zero : (cs : Chunks) → read_full 0 cs ≡ (cs, some [])
unfolding read_full
read_full-zero [] = refl
read_full-zero (c ∷ cs) = refl

read_last : (s : Text) (cs : Chunks) → 0 < length s → read (length s) (s ∷ cs) ≡ (cs, s, false)
unfolding read
read_last [] cs h = absurd (omega arith)
read_last (x ∷ s) cs h = ground arith

filled-length : (s : Text) → filled (length s) s ≡ s
filled-length s =
    let none_left : length s - length s ≡ 0 = omega arith in rw none_left (append-nil s)

read_full_last :
    (s : Text) (cs : Chunks) → 0 < length s → read_full (length s) (s ∷ cs) ≡ (cs, some s)
unfolding read_full
read_full_last [] cs h = absurd (omega arith)
read_full_last (x ∷ s) cs h =
    let none_left : length s - length s ≡ 0 = omega arith in
    ground (arith, read_full-zero cs, none_left, append-nil s)

-- A name and a password that are right are answered so, and the client may go on.
auth-right :
    (task : Tunnel) (user pass : Text) (cs : Chunks)
    → check task user pass ≡ right
    → 0 < length pass
    → auth task ((1 ∷ length user ∷ (user ++ (length pass ∷ pass))) ∷ cs) ≡ (cs, 1 ∷ 0 ∷ [], true)
unfolding auth
auth-right task user pass cs h some_pass =
    rw
      (read_full-append (1 ∷ length user ∷ []) (user ++ (length pass ∷ pass)) cs
        (omega (arith, length-append user (length pass ∷ pass))))
      (rw (read_full-append user (length pass ∷ pass) cs (omega arith)) (
        rw (read-append (length pass ∷ []) pass cs some_pass)
          (rw (read_full_last pass cs some_pass) (rw h refl))))

passes {ℓ} : {A : Type ℓ} (b : Bool) (x y : A) → b ≡ true → (if false || not b then x else y) ≡ y
passes b x y h = rw h refl

if-false {ℓ} : {A : Type ℓ} (b : Bool) (x y : A) → b ≡ false → (if b then x else y) ≡ y
if-false b x y h = rw h refl

if-true {ℓ} : {A : Type ℓ} (b : Bool) (x y : A) → b ≡ true → (if b then x else y) ≡ x
if-true b x y h = rw h refl

module _ (local_ip : Text) (local_port : ℕ) (show : Text → Text) where
  with_port-put_uint16 :
      (host : Text) (port : ℕ) (cs : Chunks)
      → port < 65536
      → with_port local_ip local_port show host (put_uint16 port ∷ cs) ≡ (host, port)
  unfolding read_full
  with_port-put_uint16 host port cs h = rw (read_full-zero cs) (ground arith)

  read_address-domain :
      (domain : Text) (port : ℕ) (cs : Chunks)
      → port < 65536
      → read_address local_ip local_port show
          ((3 ∷ length domain ∷ (domain ++ put_uint16 port)) ∷ cs)
        ≡ some (domain, port)
  unfolding read_address
  read_address-domain domain port cs h =
      let more = length-append domain (put_uint16 port) in
      rw (read-append (3 ∷ []) (length domain ∷ (domain ++ put_uint16 port)) cs (omega arith)) (
        rw (read_full-append (length domain ∷ []) (domain ++ put_uint16 port) cs (omega arith)) (
          rw (read-append domain (put_uint16 port) cs (omega arith))
            (ap some (rw (filled-length domain) (with_port-put_uint16 domain port cs h)))))

  do_connect-domain :
      (domain : Text) (port : ℕ) (cs : Chunks)
      → port < 65536
      → do_connect local_ip local_port show ((3 ∷ length domain ∷ (domain ++ put_uint16 port)) ∷ cs)
        ≡ ([], tunnel domain port)
  unfolding do_connect
  do_connect-domain domain port cs h = rw (read_address-domain domain port cs h, do_connect) refl

  handle_request-domain :
      (domain : Text) (port : ℕ) (cs : Chunks)
      → port < 65536
      → handle_request local_ip local_port show
          ((5 ∷ 1 ∷ 0 ∷ 3 ∷ length domain ∷ (domain ++ put_uint16 port)) ∷ cs)
        ≡ ([], tunnel domain port)
  unfolding handle_request
  handle_request-domain domain port cs h =
      rw
        (read_full-append (5 ∷ 1 ∷ 0 ∷ []) (3 ∷ length domain ∷ (domain ++ put_uint16 port)) cs
          (omega arith))
        (do_connect-domain domain port cs h)

  greet-request :
      (task : Tunnel) (methods request : Text) (cs : Chunks)
      → 0 < length methods
      → handle_conn local_ip local_port show task ((5 ∷ length methods ∷ methods) ∷ request ∷ cs)
        ≡ after_methods local_ip local_port show task (request ∷ cs)
  unfolding handle_conn
  greet-request task methods request cs h =
      let step : Chunks × Text × Bool → Text × Outcome = λ x.
        if x.2 || not (length x.1 == length methods)
        then ([], hung_up)
        else after_methods local_ip local_port show task x.0 in
      rw (read_full-append (5 ∷ length methods ∷ []) methods (request ∷ cs) h) (
        ap step (read_last methods (request ∷ cs) h)
        ∙ passes (length methods == length methods) ([], hung_up)
            (after_methods local_ip local_port show task (request ∷ cs)) (==_refl (length methods)))

  -- A task with no account: a client that sends its methods and then a CONNECT request for a domain
  -- name, each in a chunk of its own, is told that it needs no authentication, and is handed on to a
  -- tunnel to that domain and port.
  pub handle_conn-open :
      (task : Tunnel) (methods domain : Text) (port : ℕ) (cs : Chunks)
      → requires_auth task ≡ false
      → 0 < length methods
      → port < 65536
      → handle_conn local_ip local_port show task (
          (5 ∷ length methods ∷ methods)
          ∷ (5 ∷ 1 ∷ 0 ∷ 3 ∷ length domain ∷ (domain ++ put_uint16 port))
          ∷ cs)
        ≡ (5 ∷ 0 ∷ [], tunnel domain port)
  handle_conn-open task methods domain port cs free h small =
      let request = 5 ∷ 1 ∷ 0 ∷ 3 ∷ length domain ∷ (domain ++ put_uint16 port) in
      greet-request task methods request cs h
      ∙ (if-false (requires_auth task)
            (after_auth local_ip local_port show (auth task (request ∷ cs)))
            (request_after local_ip local_port show (5 ∷ 0 ∷ []) (request ∷ cs)) free
          ∙ ap (λ x. (5 ∷ 0 ∷ x.0, x.1)) (handle_request-domain domain port cs small))

  -- A task with accounts: a client that sends its methods, then a name and a password that are
  -- right, and then a CONNECT request for a domain name, each in a chunk of its own, is told that
  -- they are right, and is handed on to a tunnel to that domain and port.
  pub handle_conn-login :
      (task : Tunnel) (methods user pass domain : Text) (port : ℕ) (cs : Chunks)
      → requires_auth task ≡ true
      → check task user pass ≡ right
      → 0 < length methods
      → 0 < length pass
      → port < 65536
      → handle_conn local_ip local_port show task (
          (5 ∷ length methods ∷ methods)
          ∷ (1 ∷ length user ∷ (user ++ (length pass ∷ pass)))
          ∷ (5 ∷ 1 ∷ 0 ∷ 3 ∷ length domain ∷ (domain ++ put_uint16 port))
          ∷ cs)
        ≡ (5 ∷ 2 ∷ 1 ∷ 0 ∷ [], tunnel domain port)
  handle_conn-login task methods user pass domain port cs need h some_method some_pass small =
      let login = 1 ∷ length user ∷ (user ++ (length pass ∷ pass)) in
      let request = 5 ∷ 1 ∷ 0 ∷ 3 ∷ length domain ∷ (domain ++ put_uint16 port) in
      greet-request task methods login (request ∷ cs) some_method
      ∙ (if-true (requires_auth task)
            (after_auth local_ip local_port show (auth task (login ∷ request ∷ cs)))
            (request_after local_ip local_port show (5 ∷ 0 ∷ []) (login ∷ request ∷ cs)) need
          ∙ (ap (after_auth local_ip local_port show)
                (auth-right task user pass (request ∷ cs) h some_pass)
              ∙ ap (λ x. (5 ∷ 2 ∷ 1 ∷ 0 ∷ x.0, x.1)) (handle_request-domain domain port cs small)))
