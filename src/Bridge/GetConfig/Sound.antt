-- ===== src/Bridge/GetConfig/Sound.antt =====
-- bridge/bridge.go, `getConfig`: whatever a client sends, the tables of tunnels and hosts stay sound.
use nps_socks.Bridge.Tables.{
  HasSoundTables, same-HasSoundTables, new_host-HasSoundTables, new_task-HasSoundTables,
}
use nps_socks.Bridge.NewTask.{
  opens, refuses, add_one, next_task, after_port, target_at, task_turn, task_info, task_for,
  needs_targets,
}
use nps_socks.Bridge.NewTask.{Step, add_ports, new_task_turn}
use nps_socks.Bridge.Session.{goes, stops, fails, panics, Turn, Outside, Session}
use nps_socks.Common.Ports.{get_ports}
use nps_socks.Server.{port_opens, is_secret_mode}
use nps_socks.File.Clients.Tables.{KeepsTables, new_client-KeepsTables}
use nps_socks.File.Obj.{Tunnel, Host, Client, Target}
use nps_socks.Prelude.{
  Option, some, Option-cases, Bool-cases, inl, inr, ◌&&◌, none, ◌==◌, text_eq, Bool, ℤ, List, not,
  ◌∷◌, refl, drop, [], if◌then◌else◌, ◌++◌, pos, Text, ltb, codes, length, nat_eq,
}
use nps_socks.Net.{Chunks}
use nps_socks.File.Hosts.{located, is_host_exist, has_host}
use nps_socks.File.Tasks.{new_task, has_tunnel}
use nps_socks.File.JsonDb.{get_task_id, get_host_id}
use nps_socks.File.Clients.{refused, no_more_keys, Added, new_client, added, get_client_id_by_vkey}
use nps_socks.Wire.{get_short_content, get_info}
use nps_socks.Bridge.GetConfig.{
  work_status, conf_of, host_turn, draw, conf_turn, config_turn, new_conf, new_host_turn,
  config_info, host_info,
}

-- The session that a message leaves has sound tables.
abbrev pub LeavesSound : Turn → Type 0
LeavesSound (goes cs s c) = HasSoundTables s.db
LeavesSound (stops cs s c) = HasSoundTables s.db
LeavesSound (fails cs s c) = HasSoundTables s.db
LeavesSound panics = Unit

module _ (o : Outside) where
  conf_turn-LeavesSound :
      (cs : Chunks) (s : Session) (c : Client) (a : Added)
      → KeepsTables s.db a
      → HasSoundTables s.db
      → LeavesSound (conf_turn cs s c a)
  conf_turn-LeavesSound cs s c (added db d) keeps h = same-HasSoundTables s.db db keeps.0 keeps.1 h
  conf_turn-LeavesSound cs s c (refused r) keeps h = h
  conf_turn-LeavesSound cs s c no_more_keys keeps h = h

  conf_of-LeavesSound :
      (cs : Chunks) (s : Session) (d : Option Client)
      → HasSoundTables s.db
      → LeavesSound (conf_of o cs s d)
  conf_of-LeavesSound cs s none h = tt
  conf_of-LeavesSound cs s (some d) h =
      conf_turn-LeavesSound cs (record s { random = (draw s.random).1 }) d
        (new_client o.codec (draw s.random).0 d s.db)
        (new_client-KeepsTables o.codec (draw s.random).0 d s.db) h

  host_turn-LeavesSound :
      (cs : Chunks) (s : Session) (c : Client) (d : Option Host)
      → HasSoundTables s.db
      → LeavesSound (host_turn o cs s c d)
  host_turn-LeavesSound cs s c none h = tt
  host_turn-LeavesSound cs s c (some d) h =
      let d' = located (record d { client = c }) in
      elim (Bool-cases (has_host c d' s.db)) [
        | inl has ↦ rw has h
        | inr lacks ↦ elim (Bool-cases (is_host_exist d' s.db)) [
          | inl taken ↦ rw (lacks, taken) h
          | inr free ↦ rw (lacks, free) (new_host-HasSoundTables o.codec d' s.db h)
        ]
      ]

  work_status-LeavesSound :
      (cs : Chunks) (s : Session) (c : Client)
      → HasSoundTables s.db
      → LeavesSound (work_status o cs s c)
  unfolding work_status
  work_status-LeavesSound cs s c h = elim (Option-cases (get_short_content 32 cs).1) [
    | inl short ↦ rw (work_status, short) h
    | inr (vkey, hit) ↦ elim (Option-cases (get_client_id_by_vkey o.md5 vkey s.db)) [
      | inl unknown ↦ rw (work_status, hit, unknown) h
      | inr (id, known) ↦ rw (work_status, hit, known) h
    ]
  ]

  -- The session that a task leaves has sound tables.
  abbrev StepsSound : Step → Type 0
  StepsSound (opens s) = HasSoundTables s.db
  StepsSound (refuses s) = HasSoundTables s.db

  add_one-StepsSound :
      (s : Session) (c : Client) (tl : Tunnel) → HasSoundTables s.db → StepsSound (add_one o s c tl)
  add_one-StepsSound s c tl h = elim (Bool-cases (has_tunnel c tl s.db)) [
    | inl has ↦ rw has h
    | inr lacks ↦ elim (Option-cases (new_task o.codec tl s.db)) [
      | inl taken ↦ rw (lacks, taken) h
      | inr (db, done) ↦
          let sound = new_task-HasSoundTables o.codec tl s.db db done h in
          elim (Bool-cases (
            not (port_opens o.codec (o.env tl.id) tl.port tl.mode)
            && not (is_secret_mode tl.mode))) [
              | inl shut ↦ rw (lacks, done, shut) sound
              | inr free ↦ rw (lacks, done, free) sound
            ]
    ]
  ]

  next_task-StepsSound :
      (single : Bool) (t : Tunnel) (c : Client) (port : ℤ) (s : Session) (target : Target)
      → HasSoundTables s.db
      → StepsSound (next_task o single t c port s target)
  next_task-StepsSound single t c port s target h =
      let (db, id) = get_task_id s.db in
      add_one-StepsSound (record s { db = db }) c (task_for single t c id port target)
        (unfold get_task_id in same-HasSoundTables s.db db refl refl h)

  after_port-LeavesSound :
      (next : Session → Turn) (cs : Chunks) (c : Client) (step : Step)
      → StepsSound step
      → ((s : Session) → HasSoundTables s.db → LeavesSound (next s))
      → LeavesSound (after_port next cs c step)
  after_port-LeavesSound next cs c (opens s) h go = go s h
  after_port-LeavesSound next cs c (refuses s) h go = h

  add_ports-LeavesSound :
      (single : Bool) (t : Tunnel) (ports targets : List ℤ) (cs : Chunks) (s : Session) (c : Client)
      → HasSoundTables s.db
      → LeavesSound (add_ports o single t ports targets cs s c)
  unfolding add_ports
  add_ports-LeavesSound single t [] targets cs s c h = h
  add_ports-LeavesSound single t (port ∷ ports) targets cs s c h =
      elim (Option-cases (target_at single t targets)) [
        | inl outside ↦ rw (add_ports, outside) tt
        | inr (target, at) ↦
            rw (add_ports, at)
              (after_port-LeavesSound (λ s'. add_ports o single t ports (drop 1 targets) cs s' c) cs
                c (next_task o single t c port s target)
                (next_task-StepsSound single t c port s target h)
                (λ s'. add_ports-LeavesSound single t ports (drop 1 targets) cs s' c))
      ]

  task_turn-LeavesSound :
      (cs : Chunks) (s : Session) (c : Client) (d : Option Tunnel)
      → HasSoundTables s.db
      → LeavesSound (task_turn o cs s c d)
  task_turn-LeavesSound cs s c none h = tt
  task_turn-LeavesSound cs s c (some t) h =
      let targets = get_ports t.target.target_str in
      let given = get_ports t.ports in
      let ports = if is_secret_mode t.mode then given ++ (pos 0 ∷ []) else given in
      elim (Bool-cases
        (ltb 1 (length given) && (needs_targets t.mode && not (length given == length targets)))) [
          | inl unequal ↦ rw unequal h
          | inr fine ↦ elim (Bool-cases (length ports == 0)) [
            | inl empty ↦ rw (fine, empty) h
            | inr full ↦
                rw (fine, full) (add_ports-LeavesSound (length ports == 1) t ports targets cs s c h)
          ]
        ]

  new_host_turn-LeavesSound :
      (cs : Chunks) (s : Session) (c : Client)
      → HasSoundTables s.db
      → LeavesSound (new_host_turn o cs s c)
  unfolding new_host_turn get_host_id
  new_host_turn-LeavesSound cs s c h =
      let (cs', info) = get_info o.fill_host cs in
      let (db, id) = get_host_id s.db in
      host_turn-LeavesSound cs' (record s { db = db }) c (host_info info id)
        (same-HasSoundTables s.db db refl refl h)

  new_task_turn-LeavesSound :
      (cs : Chunks) (s : Session) (c : Client)
      → HasSoundTables s.db
      → LeavesSound (new_task_turn o cs s c)
  unfolding new_task_turn get_task_id
  new_task_turn-LeavesSound cs s c h =
      let (cs', info) = get_info o.fill_task cs in
      let (db, id) = get_task_id s.db in
      task_turn-LeavesSound cs' (record s { db = db }) c (task_info info id)
        (same-HasSoundTables s.db db refl refl h)

  pub config_turn-LeavesSound :
      (flag : Text) (cs : Chunks) (s : Session) (c : Client)
      → HasSoundTables s.db
      → LeavesSound (config_turn o flag cs s c)
  unfolding config_turn new_conf
  config_turn-LeavesSound flag cs s c h = elim (Bool-cases (flag == codes "stus")) [
    | inl status ↦ rw status (work_status-LeavesSound cs s c h)
    | inr n₁ ↦ elim (Bool-cases (flag == codes "conf")) [
      | inl conf ↦
          let (cs', info) = get_info o.fill_client cs in
          rw (n₁, conf) (conf_of-LeavesSound cs' s (config_info info) h)
      | inr n₂ ↦ elim (Bool-cases (flag == codes "host")) [
        | inl host ↦ rw (n₁, n₂, host) (new_host_turn-LeavesSound cs s c h)
        | inr n₃ ↦ elim (Bool-cases (flag == codes "task")) [
          | inl task ↦ rw (n₁, n₂, n₃, task) (new_task_turn-LeavesSound cs s c h)
          | inr n₄ ↦ rw (n₁, n₂, n₃, n₄) h
        ]
      ]
    ]
  ]
