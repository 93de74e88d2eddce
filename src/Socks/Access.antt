-- ===== src/Socks/Access.antt =====
-- server/proxy/socks5.go: who gets through the SOCKS5 handshake where accounts are set.
use mathlib.Core.List.{append_assoc}
use nps_socks.Net.Stream.{bytes, bytes-read, bytes-read_full, length-read}
use nps_socks.Prelude.{
  Text, Bool, Option, ℕ, false, ◌≡◌, true, some, Bool-cases, ◌∷◌, refl, ◌==◌, inl, inr, get_or,
  none, [], nat_eq, if◌then◌else◌, ◌||◌, not, length, ◌++◌, ap, Option-cases, subst, ◌∙◌, arith,
  ==_iff, ◌≤◌,
}
use nps_socks.Socks.{
  Tunnel, Outcome, Verdict, answer, auth_pass, auth_user, auth_header, after_auth, auth,
  handle_conn, requires_auth, tunnel, right, check, greet, udp_relay, hung_up, wrong, left_open,
  refused, after_methods,
}
use nps_socks.Net.{Chunks, read_full, read}

-- The connection is handed on to a target.
unfoldable pub is_served : Outcome → Bool
is_served hung_up = false
is_served left_open = false
is_served (tunnel host port) = true
is_served (udp_relay host port) = true

refute {ℓ} : {A : Type ℓ} → false ≡ true → A
refute e = absurd (cc e)

answer-right : (v : Verdict) → (answer v).1 ≡ true → v ≡ right
answer-right right e = refl
answer-right wrong e = refute e
answer-right refused e = refute e

abbrev pub IsMarked : Text → Text → Type 0
IsMarked mark pass = (length mark ≤ 1) × (length pass ≡ get_or mark 0 1)

-- The bytes that are left begin with a password that is right for the user.
abbrev Password : Tunnel → Text → Text → Type 0
Password task user s =
    (mark : Text) × (pass : Text) × (rest : Text) × (mark ++ (pass ++ rest) ≡ s)
    × IsMarked mark pass
    × (check task user pass ≡ right)

-- The bytes hold a login: version 1, the length of a name and the name, a byte that gives the
-- password's length, and a password that is right for the name. (A read of no byte from an empty
-- chunk leaves the version, 1, to stand for that length.)
abbrev pub Login : Tunnel → Text → Type 0
Login task s =
    (front : Text) × (user : Text) × (mark : Text) × (pass : Text) × (rest : Text) × (front
        ++ (1 ∷ length user ∷ (user ++ (mark ++ (pass ++ rest))))
      ≡ s)
    × IsMarked mark pass
    × (check task user pass ≡ right)

auth_pass-right :
    (task : Tunnel) (user : Text) (n : ℕ) (cs : Chunks)
    → (auth_pass task user (read_full n cs)).2 ≡ true
    → (pass : Text) × (rest : Text) × (pass ++ rest ≡ bytes cs)
      × (length pass ≡ n)
      × (check task user pass ≡ right)
auth_pass-right task user n cs e = elim (Option-cases (read_full n cs).1) [
  | inl missed ↦ refute (rw missed at e)
  | inr (pass, hit) ↦
      let (same, len) = bytes-read_full n cs pass hit in
      (pass, bytes (read_full n cs).0, same, len, answer-right (check task user pass) (rw hit at e))
]

auth_user-right :
    (task : Tunnel) (user : Text) (cs : Chunks)
    → (auth_user task (cs, some user)).2 ≡ true
    → Password task user (bytes cs)
auth_user-right task user cs e = elim (Bool-cases (read 1 cs).2) [
  | inl failed ↦ refute (rw failed at e)
  | inr fine ↦
      let (cs', s, failed) = read 1 cs in
      let (pass, rest, same, len, h) =
        auth_pass-right task user (get_or s 0 1) cs' (rw fine at e) in
      (s, pass, rest, ap (λ t. s ++ t) same ∙ bytes-read 1 cs, (length-read 1 cs, len), h)
]

auth_name-right :
    (task : Tunnel) (n : ℕ) (cs : Chunks)
    → (auth_user task (read_full n cs)).2 ≡ true
    → (user : Text) × (length user ≡ n) × (s : Text) × (user ++ s ≡ bytes cs) × Password task user s
auth_name-right task n cs e = elim (Option-cases (read_full n cs).1) [
  | inl missed ↦ refute (rw missed at e)
  | inr (user, hit) ↦
      let (same, len) = bytes-read_full n cs user hit in
      (
        user,
        len,
        bytes (read_full n cs).0,
        same,
        auth_user-right task user (read_full n cs).0 (rw hit at e),
      )
]

-- A header of two bytes, and what comes behind it.
auth_version-right :
    (task : Tunnel) (header : Text) (cs : Chunks)
    → length header ≡ 2
    → (auth_header task (cs, some header)).2 ≡ true
    → Login task (header ++ bytes cs)
auth_version-right task [] cs two e = refute e
auth_version-right task (v ∷ []) cs two e = refute e
auth_version-right task (v ∷ n ∷ x ∷ more) cs two e = absurd (omega arith)
auth_version-right task (v ∷ n ∷ []) cs two e = elim (Bool-cases (v == 1)) [
  | inl hit ↦
      let (user, len, s, same, password) = auth_name-right task n cs (rw hit at e) in
      let (mark, pass, rest, split, marked, h) = password in
      let shape : 1 ∷ length user ∷ (user ++ (mark ++ (pass ++ rest))) ≡ v ∷ n ∷ bytes cs =
        rw ((==_iff v 1).0 hit, ← len)
          (ap (λ t. 1 ∷ length user ∷ t) (ap (λ t. user ++ t) split ∙ same)) in
      ([], user, mark, pass, rest, shape, marked, h)
  | inr miss ↦ refute (rw miss at e)
]

-- The header is the first two of the bytes `s`.
abbrev Heads : Text → Option Text → Chunks → Type 0
Heads s o cs = (header : Text) → o ≡ some header → (header ++ bytes cs ≡ s) × (length header ≡ 2)

auth_header-right :
    (task : Tunnel) (s : Text) (o : Option Text) (cs : Chunks)
    → Heads s o cs
    → (auth_header task (cs, o)).2 ≡ true
    → Login task s
auth_header-right task s none cs h e = refute e
auth_header-right task s (some header) cs h e =
    let (same, len) = h header refl in
    subst (Login task) same (auth_version-right task header cs len e)

auth-right : (task : Tunnel) (cs : Chunks) → (auth task cs).2 ≡ true → Login task (bytes cs)
unfolding auth
auth-right task cs =
    auth_header-right task (bytes cs) (read_full 2 cs).1 (read_full 2 cs).0 (bytes-read_full 2 cs)

-- What comes before a login may be longer.
Login-after : (task : Tunnel) (s t : Text) → Login task t → Login task (s ++ t)
Login-after task s t (front, user, mark, pass, rest, same, marked, h) = (
  s ++ front,
  user,
  mark,
  pass,
  rest,
  append_assoc s front (1 ∷ length user ∷ (user ++ (mark ++ (pass ++ rest))))
      ∙ ap (λ x. s ++ x) same,
  marked,
  h,
)

module _ (local_ip : Text) (local_port : ℕ) (show : Text → Text) where
  after_auth-right :
      (x : Chunks × Text × Bool)
      → is_served (after_auth local_ip local_port show x).1 ≡ true
      → x.2 ≡ true
  unfolding is_served
  after_auth-right (cs, out, true) e = refl
  after_auth-right (cs, out, false) e = refute e

  -- Behind the version and the number of the methods.
  methods-right :
      (task : Tunnel) (cs : Chunks) (n : ℕ)
      → requires_auth task ≡ true
      → is_served
          (if (read n cs).2 || not (length (read n cs).1 == n)
            then ([], hung_up)
            else after_methods local_ip local_port show task (read n cs).0).1
        ≡ true
      → Login task (bytes cs)
  unfolding is_served
  methods-right task cs n need e =
      elim (Bool-cases ((read n cs).2 || not (length (read n cs).1 == n))) [
        | inl bad ↦ refute (rw bad at e)
        | inr good ↦
            let (cs', s, failed) = read n cs in
            let login =
              auth-right task cs' (after_auth-right (auth task cs') (rw need at (rw good at e))) in
            subst (Login task) (bytes-read n cs) (Login-after task s (bytes cs') login)
      ]

  greet-right :
      (task : Tunnel) (header : Text) (cs : Chunks)
      → length header ≡ 2
      → requires_auth task ≡ true
      → is_served (greet local_ip local_port show task (cs, some header)).1 ≡ true
      → Login task (header ++ bytes cs)
  unfolding is_served
  greet-right task [] cs two need e = refute e
  greet-right task (v ∷ []) cs two need e = refute e
  greet-right task (v ∷ n ∷ rest) cs two need e = elim (Bool-cases (v == 5)) [
    | inl hit ↦
        Login-after task (v ∷ n ∷ rest) (bytes cs) (methods-right task cs n need (rw hit at e))
    | inr miss ↦ refute (rw miss at e)
  ]

  greet_header-right :
      (task : Tunnel) (s : Text) (o : Option Text) (cs : Chunks)
      → Heads s o cs
      → requires_auth task ≡ true
      → is_served (greet local_ip local_port show task (cs, o)).1 ≡ true
      → Login task s
  unfolding is_served
  greet_header-right task s none cs h need e = refute e
  greet_header-right task s (some header) cs h need e =
      let (same, len) = h header refl in
      subst (Login task) same (greet-right task header cs len need e)

  -- Where the task asks for accounts, a connection is handed on to a target only if the bytes that
  -- the client sent hold a login: version 1, the length of a name and the name, a byte for the
  -- password's length (missing where an empty chunk stands, and then the length is 1), and a password
  -- of that length that is right for the name. This is so for all bytes, in all chunks.
  pub handle_conn-Login :
      (task : Tunnel) (cs : Chunks)
      → requires_auth task ≡ true
      → is_served (handle_conn local_ip local_port show task cs).1 ≡ true
      → Login task (bytes cs)
  unfolding handle_conn
  handle_conn-Login task cs =
      greet_header-right task (bytes cs) (read_full 2 cs).1 (read_full 2 cs).0
        (bytes-read_full 2 cs)
