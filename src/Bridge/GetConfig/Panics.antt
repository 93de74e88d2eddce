-- ===== src/Bridge/GetConfig/Panics.antt =====
-- bridge/bridge.go, `getConfig`, and lib/conn/conn.go: a message that is cut off ends the server.
use nps_socks.Bridge.NewTask.{new_task_turn}
use nps_socks.Bridge.Session.{panics, Outside, Session}
use nps_socks.Net.Stream.{bytes, read_full_front, read_full_short}
use nps_socks.File.JsonDb.{get_host_id, get_task_id}
use nps_socks.File.Obj.{Client}
use nps_socks.Net.{Chunks}
use nps_socks.Prelude.{
  Text, ℕ, ◌≡◌, Option, codes, length, ◌⊎◌, ◌<◌, beq_text, ◌++◌, suc, inl, ap, inr, refl, some,
  arith,
}
use nps_socks.Wire.{read_error, get_info, read_flag, get_content, get_len}
use nps_socks.Bridge.GetConfig.{crashed, get_config, config_turn, new_conf, new_host_turn}

-- Fewer bytes than a length has are no message.
get_info-short :
    {A : Type 0} (fill : Text → Option A) (cs : Chunks)
    → length (bytes cs) < 4
    → (get_info fill cs).1 ≡ read_error
unfolding get_info get_content get_len
get_info-short fill cs h = rw (read_full_short 4 cs h) refl

-- The flags of the messages that bring a client, a host or a task.
abbrev pub BringsData : Text → Type 0
BringsData flag = (flag ≡ codes "conf") ⊎ (flag ≡ codes "host") ⊎ (flag ≡ codes "task")

config_turn-panics :
    (o : Outside) (flag : Text) (cs : Chunks) (s : Session) (c : Client)
    → BringsData flag
    → length (bytes cs) < 4
    → config_turn o flag cs s c ≡ panics
unfolding config_turn new_conf new_host_turn new_task_turn get_host_id get_task_id beq_text
config_turn-panics o flag cs s c (inl conf) h = rw (conf, get_info-short o.fill_client cs h) refl
config_turn-panics o flag cs s c (inr (inl host)) h =
    rw (host, get_info-short o.fill_host cs h) refl
config_turn-panics o flag cs s c (inr (inr task)) h =
    rw (task, get_info-short o.fill_task cs h) refl

-- A client that sends the flag of a message that brings a client, a host or a task, and closes the
-- connection before the four bytes of a length, makes the server panic, whatever the database holds:
-- the error of the read is looked at only after the value was used.
pub get_config-crashed :
    (o : Outside) (fuel : ℕ) (flag short : Text) (cs : Chunks) (s : Session) (c : Client)
    → BringsData flag
    → length short < 4
    → bytes cs ≡ flag ++ short
    → get_config o (suc fuel) cs s c ≡ crashed
unfolding get_config read_flag
get_config-crashed o fuel flag short cs s c brings less sent =
    let four : length flag ≡ 4 = elim brings [
      | inl e ↦ ap length e
      | inr (inl e) ↦ ap length e
      | inr (inr e) ↦ ap length e
    ] in
    let (hit, left) = read_full_front flag short cs sent in
    let hit₄ : (read_flag cs).1 ≡ some flag = rw (← four) hit in
    let left₄ : bytes (read_flag cs).0 ≡ short = rw (← four) left in
    let turn =
      config_turn-panics o flag (read_flag cs).0 s c brings
        (omega (arith, ap length left₄, less)) in
    rw (get_config, hit₄, turn) refl
