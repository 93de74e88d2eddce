-- ===== src/Health.antt =====
-- bridge/bridge.go, `GetHealthFromClient`: what a message of a client's health check changes. Each
-- entry of the two tables is changed in place.
pub mod Recovery
use nps_socks.Common.Arrays.{remove_arr_val, is_arr_contains, trim_arr}
use nps_socks.Prelude.{
  ◌∷◌, text_eq, int_eq, Option, Text, ℤ, [], List, some, Bool, ◌++◌, ◌==◌, none, if◌then◌else◌,
  ◌&&◌, split, not, contains, codes, length, nat_eq,
}
use nps_socks.File.Obj.{Target, Health, Tunnel, Host}
use nps_socks.SyncMap.{Table}
use nps_socks.File.JsonDb.{JsonDb}

abbrev pub or_empty : Option (List Text) → List Text
or_empty none = []
or_empty (some arr) = arr

-- The targets before one is removed: those of the text if none was set, or if none is left and
-- none was removed.
abbrev pub filled_targets : Target → Option (List Text) → List Text
filled_targets t removed = elim t.target_arr [
  | none ↦ trim_arr (split b'\n' t.target_str)
  | some arr ↦
      if length arr == 0 && length (or_empty removed) == 0
      then trim_arr (split b'\n' t.target_str)
      else arr
]

-- The target is down: it leaves the targets and is noted as removed.
unfoldable pub take_down : Text → Target → Health → Target × Health
take_down info t h = (
  record t { target_arr = some (remove_arr_val (filled_targets t h.health_remove_arr) info) },
  record h { health_remove_arr = some (or_empty h.health_remove_arr ++ (info ∷ [])) },
)

-- The target is up again and was removed before.
abbrev pub returns : Text → Target → Health → Bool
returns info t h =
    is_arr_contains h.health_remove_arr info && not (is_arr_contains t.target_arr info)

unfoldable pub bring_back : Text → Target → Health → Target × Health
bring_back info t h = (
  record t { target_arr = some (or_empty t.target_arr ++ (info ∷ [])) },
  record h { health_remove_arr = some (remove_arr_val (or_empty h.health_remove_arr) info) },
)

-- Both lists for a message; `ours` is what the code asks of the entry besides.
unfoldable pub on_health : Text → Bool → Bool → Target → Health → Target × Health
unfolding take_down bring_back
on_health info status ours t h =
    if status
    then (if ours && returns info t h then bring_back info t h else (t, h))
    else if ours && contains t.target_str info
    then take_down info t h
    else (t, h)

unfoldable pub tunnel_health : ℤ → Text → Bool → Tunnel → Tunnel
unfolding on_health
tunnel_health id info status v =
    let (t, h) =
      on_health info status (v.client.id == id && v.mode == codes "tcp") v.target v.health in
    record v { target = t; health = h }

unfoldable pub host_health : ℤ → Text → Bool → Host → Host
unfolding on_health
host_health id info status v =
    let (t, h) = on_health info status (v.client.id == id) v.target v.health in
    record v { target = t; health = h }

abbrev each_value : {V : Type 0} → (V → V) → Table V → Table V
each_value f [] = []
each_value f ((k, v) ∷ m) = (k, f v) ∷ each_value f m

-- One message from the client `id`.
unfoldable pub get_health_from_client : ℤ → Text → Bool → JsonDb → JsonDb
unfolding tunnel_health host_health
get_health_from_client id info status s = record s {
  tasks = each_value (tunnel_health id info status) s.tasks;
  hosts = each_value (host_health id info status) s.hosts;
}
