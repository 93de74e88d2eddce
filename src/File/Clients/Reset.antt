-- ===== src/File/Clients/Reset.antt =====
-- lib/file/db.go, `NewClient`: when a client is added, and when it is refused.
use nps_socks.File.Obj.{Client}
use nps_socks.File.JsonDb.{Codec, JsonDb}
use nps_socks.Prelude.{
  ℤ, List, Text, ◌≡◌, ◌∷◌, some, Bool-cases, [], true, ◌==◌, ◌⊎◌, not, inl, pos, ◌≢◌, ◌&&◌, inr,
  arith, false, int_eq, ==_iff, refl, text_eq,
}
use nps_socks.File.Clients.{
  Added, added, refused, no_more_keys, username_duplicate, vkey_duplicate, verify_vkey,
  verify_user_name, with_new_key, new_client, finish, with_rate,
}

-- The random keys hold one that no other client has.
abbrev pub HasFreeKey : ℤ → JsonDb → List Text → Type 0
HasFreeKey id s [] = ⊥
HasFreeKey id s (k ∷ ks) = (verify_vkey k id s ≡ true) ⊎ HasFreeKey id s ks

with_new_key-total :
    (s : JsonDb) (ks : List Text) (c : Client)
    → HasFreeKey c.id s ks
    → (c' : Client) × (with_new_key s ks c ≡ some c')
unfolding with_new_key with_rate
with_new_key-total s [] c h = absurd h
with_new_key-total s (k ∷ ks) c h = elim (Bool-cases (verify_vkey k c.id s)) [
  | inl ok ↦ (with_rate (record c { verify_key = k }), rw ok)
  | inr taken ↦
      rw taken (with_new_key-total s ks (with_rate (record c { verify_key = k })) (ground arith))
]

finish-added :
    (codec : Codec) (s : JsonDb) (c : Client)
    → (s' : JsonDb) × (c' : Client) × (finish codec s c ≡ added s' c')
finish-added codec s c = elim (Bool-cases (c.id == pos 0)) [
  | inl unset ↦ rw unset (_, _, refl)
  | inr set ↦ rw set (_, _, refl)
]

-- What the outcome says about the names and keys in the table.
abbrev pub Reason : Client → JsonDb → Added → Type 0
Reason c s (added s' c') =
    ((c.web_user_name ≡ []) ⊎ (verify_user_name c.web_user_name c.id s ≡ true))
    × ((c.verify_key ≡ []) ⊎ (verify_vkey c.verify_key c.id s ≡ true))
Reason c s (refused username_duplicate) =
    (c.web_user_name ≢ []) × (verify_user_name c.web_user_name c.id s ≡ false)
Reason c s (refused vkey_duplicate) =
    (c.verify_key ≢ []) × (verify_vkey c.verify_key c.id s ≡ false)
Reason c s no_more_keys = ⊥

-- With a free key among the random ones `NewClient` comes back, and says why: a refusal for the
-- name means that the name is set and another client has it, a refusal for the key that the key is
-- set and another client has it, and a client that is added has neither fault.
pub new_client-Reason :
    (codec : Codec) (random : List Text) (c : Client) (s : JsonDb)
    → HasFreeKey c.id s random
    → Reason c s (new_client codec random c s)
unfolding new_client
new_client-Reason codec random c s h =
    elim (Bool-cases
      (not (c.web_user_name == []) && not (verify_user_name c.web_user_name c.id s))) [
        | inl dup ↦ rw dup (ground (arith, ==_iff c.web_user_name []))
        | inr fine ↦ elim (Bool-cases (c.verify_key == [])) [
          | inl empty ↦
              let (d, made) = with_new_key-total s random c h in
              let (s', c', done) = finish-added codec s d in
              rw (fine, empty, made, done)
                (ground (arith, ==_iff c.web_user_name []), inl ((==_iff c.verify_key []).0 empty))
          | inr given ↦ elim (Bool-cases (verify_vkey c.verify_key c.id s)) [
            | inl ok ↦
                let (s', c', done) = finish-added codec s (with_rate c) in
                rw (fine, given, ok, done) (ground (arith, ==_iff c.web_user_name []), inr ok)
            | inr taken ↦ rw (fine, given, taken) (ground (arith, ==_iff c.verify_key []))
          ]
        ]
      ]
