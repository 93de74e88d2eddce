-- ===== src/File/Tasks.antt =====
-- lib/file/db.go and lib/file/obj.go: the tunnels. MD5 is a parameter.
pub mod Secrets
use nps_socks.SyncMap.{store, delete, load, values}
use nps_socks.Prelude.{
  Bool, Option, ℤ, Text, ℕ, ◌==◌, find, any, List, codes, ◌&&◌, ◌∷◌, ◌+◌, text_eq, ◌||◌, not, pos,
  int_eq, if◌then◌else◌, none, [], some,
}
use nps_socks.File.JsonDb.{Codec, JsonDb, store_tasks_to_json_file}
use nps_socks.File.Obj.{empty_flow, Client, Tunnel, Host}

-- `v.Mode == "secret" || v.Mode == "p2p"`
abbrev pub is_secret : Tunnel → Bool
is_secret v = v.mode == codes "secret" || v.mode == codes "p2p"

module _ (codec : Codec) where
  -- `none` is the error that the key must be unique.
  unfoldable pub new_task : Tunnel → JsonDb → Option JsonDb
  unfolding store_tasks_to_json_file
  new_task t s =
      if any (λ v. is_secret v && v.password == t.password) (values s.tasks)
      then none
      else some (
          store_tasks_to_json_file codec
            (record s { tasks = store t.id (record t { flow = some empty_flow }) s.tasks }))

  unfoldable pub update_task : Tunnel → JsonDb → JsonDb
  unfolding store_tasks_to_json_file
  update_task t s = store_tasks_to_json_file codec (record s { tasks = store t.id t s.tasks })

  unfoldable pub del_task : ℤ → JsonDb → JsonDb
  unfolding store_tasks_to_json_file
  del_task id s = store_tasks_to_json_file codec (record s { tasks = delete id s.tasks })

unfoldable pub get_task : ℤ → JsonDb → Option Tunnel
get_task id s = load id s.tasks

-- The first tunnel whose password has the digest; `none` is nil.
unfoldable pub get_task_by_md5_password : (Text → Text) → Text → JsonDb → Option Tunnel
get_task_by_md5_password md5 p s = find (λ t. md5 t.password == p) (values s.tasks)

unfoldable pub has_tunnel : Client → Tunnel → JsonDb → Bool
has_tunnel s t db =
    any (λ v. v.client.id == s.id && (v.port == t.port && not (t.port == pos 0))) (values db.tasks)

abbrev owned : {V : Type 0} → (V → ℤ) → ℤ → List V → ℕ
owned owner id [] = 0
owned owner id (v ∷ vs) = (if owner v == id then 1 else 0) + owned owner id vs

unfoldable pub get_tunnel_num : Client → JsonDb → ℕ
get_tunnel_num s db =
    owned (λ (v : Tunnel). v.client.id) s.id (values db.tasks)
    + owned (λ (v : Host). v.client.id) s.id (values db.hosts)
