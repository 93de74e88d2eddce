-- ===== src/Client/Handshake.antt =====
-- client/control.go and bridge/bridge.go: the greetings of a client and of the server fit together.
use nps_socks.Client.{hello, told, greeted, connected}
use nps_socks.Bridge.CliProcess.{cli_process, tested, versioned, keyed_by, verified, flagged}
use nps_socks.File.Clients.{get_id_by_verify_key}
use nps_socks.File.JsonDb.{JsonDb}
use nps_socks.Net.{Chunks, read_full}
use nps_socks.Net.Stream.{bytes, read_full_front}
use nps_socks.Wire.RoundTrip.{Gives, get_len-le_bytes}
use nps_socks.Wire.{
  Reply, get_short_content, get_short_len_content, short_len_content, get_len, get_len_bytes,
  write_len_content, read_flag, le_bytes,
}
use nps_socks.Prelude.{
  Text, ℤ, ℕ, Option, codes, ◌≡◌, ◌≤◌, ◌++◌, some, none, length, refl, sym, ap, ◌∙◌, subst, arith,
  some_inj, pos, ltb, false, [], ◌==◌, text_eq, Bool-cases, inl, inr,
}
use mathlib.Core.List.{append_assoc, append-nil}

-- Reading as many bytes as a text has.
pub short_content-Gives :
    (n : ℕ) (s rest : Text) (cs : Chunks)
    → length s ≡ n
    → bytes cs ≡ s ++ rest
    → Gives (get_short_content n cs) s rest
unfolding get_short_content
short_content-Gives n s rest cs len e =
    subst (λ k. Gives (read_full k cs) s rest) len (read_full_front s rest cs e)

short_len-Gives :
    (r : Reply ℤ) (buf rest : Text)
    → length buf ≤ 32768
    → Gives r (pos (length buf)) (buf ++ rest)
    → Gives (short_len_content r) buf rest
short_len-Gives (cs, none) buf rest small (e, left) = absurd (ground (arith, e))
short_len-Gives (cs, some l) buf rest small (e, left) =
    let fine : ltb 32768 (length buf) ≡ false = ground arith in
    rw (some_inj e, fine) (short_content-Gives (length buf) buf rest cs refl left)

-- A short message is read back.
short_len_content-Gives :
    (buf rest : Text) (cs : Chunks)
    → length buf ≤ 32768
    → bytes cs ≡ write_len_content buf ++ rest
    → Gives (get_short_len_content cs) buf rest
unfolding get_short_len_content write_len_content get_len_bytes
short_len_content-Gives buf rest cs small e = short_len-Gives (get_len cs) buf rest small (
    get_len-le_bytes (length buf) (buf ++ rest) cs (omega (arith, small))
      (e ∙ append_assoc (le_bytes (length buf)) buf rest))

-- A reply that is known has its value, whatever its chunks are.
Reply-some : {A : Type 0} (r : Reply A) (a : A) → r.1 ≡ some a → r ≡ (r.0, some a)
Reply-some (cs, o) a e = ap (λ x. (cs, x)) e

module _ (md5 : Text → Text) (core name vkey conn_type addr : Text) where
  abbrev pub hi : Text
  hi = hello md5 core name vkey conn_type

  -- Its key follows in what the client writes when it is greeted.
  pub told-out :
      (r : Reply Text)
      → (t : Text) × ((told md5 core name vkey conn_type r).out ≡ hi ++ (md5 vkey ++ t))
  told-out (cs, none) = ([], ap (λ t. hi ++ t) (sym (append-nil (md5 vkey))))
  told-out (cs, some s) = elim (Bool-cases (s == codes "vkey")) [
    | inl refused ↦ ([], rw refused (ap (λ t. hi ++ t) (sym (append-nil (md5 vkey)))))
    | inr fine ↦ (conn_type, rw fine refl)
  ]

  -- The client writes its greeting first.
  pub greeted-out :
      (r : Reply Text) → (t : Text) × ((greeted md5 core name vkey conn_type r).out ≡ hi ++ t)
  greeted-out (cs, none) = ([], sym (append-nil hi))
  greeted-out (cs, some b) = let (t, e) = told-out (read_flag cs) in (md5 vkey ++ t, e)

  pub greeted-some :
      (r : Reply Text) (b u : Text)
      → Gives r b u
      → (greeted md5 core name vkey conn_type r ≡ told md5 core name vkey conn_type (read_flag r.0))
  greeted-some (cs, none) b u (e, left) = absurd (ground (arith, e))
  greeted-some (cs, some b') b u (e, left) = refl

  pub told-some :
      (r : Reply Text) (s u : Text)
      → Gives r s u
      → (s == codes "vkey") ≡ false
      → told md5 core name vkey conn_type r
        ≡ record { out = hi ++ (md5 vkey ++ conn_type); ending = connected r.0 }
  told-some (cs, none) s u (e, left) fine = absurd (ground (arith, e))
  told-some (cs, some s') s u (e, left) fine = rw (some_inj e, fine) refl

  -- The server writes its version first once it has the greeting.
  pub flagged-out :
      (db : JsonDb) (id : ℤ) (r : Reply Text)
      → (flagged md5 core addr name db id r).out ≡ md5 core ++ codes "sucs"
  flagged-out db id (cs, none) = refl
  flagged-out db id (cs, some flag) = refl

  verified-out :
      (cs : Chunks) (r : JsonDb × Option ℤ)
      → (t : Text) × ((verified md5 core addr name cs r).out ≡ md5 core ++ t)
  verified-out cs (db, none) = (codes "vkey", refl)
  verified-out cs (db, some id) = (codes "sucs", flagged-out db id (read_flag cs))

  pub keyed_by-out :
      (db : JsonDb) (r : Reply Text)
      → (t : Text) × ((keyed_by md5 core addr name db r).out ≡ md5 core ++ t)
  keyed_by-out db (cs, none) = ([], sym (append-nil (md5 core)))
  keyed_by-out db (cs, some key) = verified-out cs (get_id_by_verify_key md5 key addr db)

  pub keyed_by-some :
      (db : JsonDb) (r : Reply Text) (key u : Text)
      → Gives r key u
      → keyed_by md5 core addr name db r
        ≡ verified md5 core addr name r.0 (get_id_by_verify_key md5 key addr db)
  keyed_by-some db (cs, none) key u (e, left) = absurd (ground (arith, e))
  keyed_by-some db (cs, some key') key u (e, left) = rw (some_inj e) refl

  versioned-some :
      (db : JsonDb) (r : Reply Text) (u : Text)
      → Gives r name u
      → versioned md5 core addr db r ≡ keyed_by md5 core addr name db (get_short_content 32 r.0)
  versioned-some db (cs, none) u (e, left) = absurd (ground (arith, e))
  versioned-some db (cs, some vs) u (e, left) = rw (some_inj e) refl

  tested-some :
      (db : JsonDb) (r : Reply Text) (s u : Text)
      → Gives r s u
      → tested md5 core addr db r
        ≡ versioned md5 core addr db (get_short_len_content (get_short_len_content r.0).0)
  tested-some db (cs, none) s u (e, left) = absurd (ground (arith, e))
  tested-some db (cs, some s') s u (e, left) = refl

  -- The server has read the greeting.
  pub cli_process-hello :
      (C : Chunks) (db : JsonDb) (t : Text)
      → length core ≤ 32768
      → length name ≤ 32768
      → bytes C ≡ hi ++ t
      → (D : Chunks) × (cli_process md5 core addr C db
          ≡ keyed_by md5 core addr name db (get_short_content 32 D))
        × (bytes D ≡ t)
  unfolding cli_process hello
  cli_process-hello C db t small small' e =
      let front = write_len_content core ++ write_len_content name in
      let first =
        short_content-Gives 3 (codes "TST") (front ++ t) C refl
          (e ∙ append_assoc (codes "TST") front t) in
      let r₁ = get_short_content 3 C in
      let second =
        short_len_content-Gives core (write_len_content name ++ t) r₁.0 small
          (first.1 ∙ append_assoc (write_len_content core) (write_len_content name) t) in
      let r₂ = get_short_len_content r₁.0 in
      let third = short_len_content-Gives name t r₂.0 small' second.1 in
      let r₃ = get_short_len_content r₂.0 in
      (
        r₃.0,
        tested-some db r₁ (codes "TST") (front ++ t) first ∙ versioned-some db r₃ t third,
        third.1,
      )
