-- ===== src/File/Clients/Tables.antt =====
-- lib/file/db.go: adding a client leaves the tunnels and the hosts alone.
use nps_socks.File.Obj.{Client}
use nps_socks.Prelude.{
  Option, List, ◌≡◌, Bool-cases, Text, ◌==◌, not, some, pos, [], none, ◌&&◌, inl, inr, int_eq, refl,
  text_eq,
}
use nps_socks.File.JsonDb.{JsonDb, Codec, get_client_id, store_clients_to_json_file}
use nps_socks.File.Clients.{
  finish, refused, no_more_keys, Added, new_client, added, finish_key, verify_user_name,
  with_new_key, verify_vkey, with_rate,
}

-- The tunnels and the hosts are those of the state before.
abbrev pub KeepsTables : JsonDb → Added → Type 0
KeepsTables s (added s' c) = (s'.tasks ≡ s.tasks) × (s'.hosts ≡ s.hosts)
KeepsTables s (refused r) = Unit
KeepsTables s no_more_keys = Unit

module _ (codec : Codec) where
  finish-KeepsTables : (s : JsonDb) (c : Client) → KeepsTables s (finish codec s c)
  unfolding get_client_id store_clients_to_json_file
  finish-KeepsTables s c = elim (Bool-cases (c.id == pos 0)) [
    | inl z ↦ rw z (refl, refl)
    | inr nz ↦ rw nz (refl, refl)
  ]

  finish_key-KeepsTables : (s : JsonDb) (o : Option Client) → KeepsTables s (finish_key codec s o)
  finish_key-KeepsTables s none = tt
  finish_key-KeepsTables s (some c) = finish-KeepsTables s c

  pub new_client-KeepsTables :
      (random : List Text) (c : Client) (s : JsonDb) → KeepsTables s (new_client codec random c s)
  unfolding new_client
  new_client-KeepsTables random c s =
      elim (Bool-cases
        (not (c.web_user_name == []) && not (verify_user_name c.web_user_name c.id s))) [
          | inl dup ↦ rw (new_client, dup) tt
          | inr fine ↦ elim (Bool-cases (c.verify_key == [])) [
            | inl empty ↦
                rw (new_client, fine, empty) (finish_key-KeepsTables s (with_new_key s random c))
            | inr given ↦ elim (Bool-cases (verify_vkey c.verify_key c.id s)) [
              | inl ok ↦ rw (new_client, fine, given, ok) (finish-KeepsTables s (with_rate c))
              | inr taken ↦ rw (new_client, fine, given, taken) tt
            ]
          ]
        ]
