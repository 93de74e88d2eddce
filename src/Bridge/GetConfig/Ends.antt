-- ===== src/Bridge/GetConfig/Ends.antt =====
-- bridge/bridge.go, `getConfig`: the session ends when the client has nothing more to send.
use nps_socks.Bridge.NewTask.{opens, refuses}
use nps_socks.Bridge.NewTask.{
  Step, add_ports, task_turn, new_task_turn, after_port, target_at, needs_targets, task_info,
  next_task,
}
use nps_socks.Bridge.Session.{goes, stops, fails, panics, Turn, Outside, Session}
use nps_socks.Bridge.Tables.{HasSoundTables, same-HasSoundTables}
use nps_socks.Bridge.GetConfig.Sound.{config_turn-LeavesSound}
use nps_socks.Bridge.GetConfig.Sound.{LeavesSound}
use nps_socks.Wire.{get_info, get_short_content, read_flag}
use nps_socks.Wire.Bounds.{length-get_info, length-read_flag}
use nps_socks.Server.{is_secret_mode}
use nps_socks.File.JsonDb.{get_host_id, get_task_id}
use nps_socks.Common.Ports.{get_ports}
use nps_socks.File.Hosts.{located, has_host, is_host_exist}
use nps_socks.File.Obj.{Client, Host, Tunnel}
use nps_socks.Net.Stream.{bytes, length-read_full}
use nps_socks.Net.{Chunks}
use nps_socks.Prelude.{
  ℕ, Text, length, Option, some, ◌≤◌, arith, ◌∷◌, Bool-cases, ◌==◌, inl, inr, [], nat_eq, ℤ,
  Option-cases, Bool, List, pos, ltb, drop, if◌then◌else◌, ◌++◌, codes, none, ◌&&◌, not, text_eq,
  ◌<◌, suc, refl, zero,
}
use nps_socks.Bridge.GetConfig.{
  Ending, closed, work_status, config_turn, conf_of, new_conf, host_turn, new_host_turn, conf_turn,
  draw, config_info, host_info, get_config, after_turn, crashed, out_of_fuel,
}
use nps_socks.File.Clients.{refused, no_more_keys, Added, get_client_id_by_vkey, added, new_client}

-- What is left to read after a message has at most so many bytes.
abbrev pub LeavesAtMost : ℕ → Turn → Type 0
LeavesAtMost n (goes cs s c) = length (bytes cs) ≤ n
LeavesAtMost n (stops cs s c) = Unit
LeavesAtMost n (fails cs s c) = Unit
LeavesAtMost n panics = Unit

module _ (o : Outside) (n : ℕ) where
  conf_of-LeavesAtMost :
      (cs : Chunks) (s : Session) (d : Option Client)
      → length (bytes cs) ≤ n
      → LeavesAtMost n (conf_of o cs s d)
  conf_of-LeavesAtMost cs s none h = tt
  conf_of-LeavesAtMost cs s (some d) h =
      conf_turn-LeavesAtMost (new_client o.codec (draw s.random).0 d s.db)
    where
      conf_turn-LeavesAtMost :
          (a : Added) → LeavesAtMost n (conf_turn cs (record s { random = (draw s.random).1 }) d a)
      conf_turn-LeavesAtMost (added db e) = h
      conf_turn-LeavesAtMost (refused r) = tt
      conf_turn-LeavesAtMost no_more_keys = tt

  host_turn-LeavesAtMost :
      (cs : Chunks) (s : Session) (c : Client) (d : Option Host)
      → length (bytes cs) ≤ n
      → LeavesAtMost n (host_turn o cs s c d)
  host_turn-LeavesAtMost cs s c none h = tt
  host_turn-LeavesAtMost cs s c (some d) h =
      let d' = located (record d { client = c }) in
      elim (Bool-cases (has_host c d' s.db)) [
        | inl has ↦ rw has h
        | inr lacks ↦ elim (Bool-cases (is_host_exist d' s.db)) [
          | inl taken ↦ rw (lacks, taken) tt
          | inr free ↦ rw (lacks, free) h
        ]
      ]

  work_status-LeavesAtMost :
      (cs : Chunks) (s : Session) (c : Client)
      → length (bytes cs) ≤ n
      → LeavesAtMost n (work_status o cs s c)
  unfolding work_status get_short_content
  work_status-LeavesAtMost cs s c h = elim (Option-cases (get_short_content 32 cs).1) [
    | inl short ↦ rw (work_status, short) tt
    | inr (vkey, hit) ↦ elim (Option-cases (get_client_id_by_vkey o.md5 vkey s.db)) [
      | inl unknown ↦ rw (work_status, hit, unknown) tt
      | inr (id, known) ↦ rw (work_status, hit, known) (omega (arith, length-read_full 32 cs, h))
    ]
  ]

  after_port-LeavesAtMost :
      (next : Session → Turn) (cs : Chunks) (c : Client) (step : Step)
      → ((s : Session) → LeavesAtMost n (next s))
      → LeavesAtMost n (after_port next cs c step)
  after_port-LeavesAtMost next cs c (opens s) go = go s
  after_port-LeavesAtMost next cs c (refuses s) go = tt

  add_ports-LeavesAtMost :
      (single : Bool) (t : Tunnel) (ports targets : List ℤ) (cs : Chunks) (s : Session) (c : Client)
      → length (bytes cs) ≤ n
      → LeavesAtMost n (add_ports o single t ports targets cs s c)
  unfolding add_ports
  add_ports-LeavesAtMost single t [] targets cs s c h = h
  add_ports-LeavesAtMost single t (port ∷ ports) targets cs s c h =
      elim (Option-cases (target_at single t targets)) [
        | inl outside ↦ rw (add_ports, outside) tt
        | inr (target, at) ↦
            rw (add_ports, at)
              (after_port-LeavesAtMost (λ s'. add_ports o single t ports (drop 1 targets) cs s' c)
                cs c (next_task o single t c port s target)
                (λ s'. add_ports-LeavesAtMost single t ports (drop 1 targets) cs s' c h))
      ]

  task_turn-LeavesAtMost :
      (cs : Chunks) (s : Session) (c : Client) (d : Option Tunnel)
      → length (bytes cs) ≤ n
      → LeavesAtMost n (task_turn o cs s c d)
  task_turn-LeavesAtMost cs s c none h = tt
  task_turn-LeavesAtMost cs s c (some t) h =
      let targets = get_ports t.target.target_str in
      let given = get_ports t.ports in
      let ports = if is_secret_mode t.mode then given ++ (pos 0 ∷ []) else given in
      elim (Bool-cases
        (ltb 1 (length given) && (needs_targets t.mode && not (length given == length targets)))) [
          | inl unequal ↦ rw unequal tt
          | inr fine ↦ elim (Bool-cases (length ports == 0)) [
            | inl empty ↦ rw (fine, empty) tt
            | inr full ↦
                rw (fine, full)
                  (add_ports-LeavesAtMost (length ports == 1) t ports targets cs s c h)
          ]
        ]

  config_turn-LeavesAtMost :
      (flag : Text) (cs : Chunks) (s : Session) (c : Client)
      → length (bytes cs) ≤ n
      → LeavesAtMost n (config_turn o flag cs s c)
  unfolding config_turn new_conf new_host_turn new_task_turn get_host_id get_task_id
  config_turn-LeavesAtMost flag cs s c h =
      let hs = get_info o.fill_host cs in
      let ts = get_info o.fill_task cs in
      let cl = get_info o.fill_client cs in
      let (db₁, i) = get_host_id s.db in
      let (db₂, j) = get_task_id s.db in
      elim (Bool-cases (flag == codes "stus")) [
        | inl status ↦ rw status (work_status-LeavesAtMost cs s c h)
        | inr n₁ ↦ elim (Bool-cases (flag == codes "conf")) [
          | inl conf ↦
              rw (n₁, conf)
                (conf_of-LeavesAtMost cl.0 s (config_info cl.1)
                  (omega (arith, length-get_info o.fill_client cs, h)))
          | inr n₂ ↦ elim (Bool-cases (flag == codes "host")) [
            | inl host ↦
                rw (n₁, n₂, host)
                  (host_turn-LeavesAtMost hs.0 (record s { db = db₁ }) c (host_info hs.1 i)
                    (omega (arith, length-get_info o.fill_host cs, h)))
            | inr n₃ ↦ elim (Bool-cases (flag == codes "task")) [
              | inl task ↦
                  rw (n₁, n₂, n₃, task)
                    (task_turn-LeavesAtMost ts.0 (record s { db = db₂ }) c (task_info ts.1 j)
                      (omega (arith, length-get_info o.fill_task cs, h)))
              | inr n₄ ↦ rw (n₁, n₂, n₃, n₄) h
            ]
          ]
        ]
      ]

-- The session ends with sound tables, or the server panics.
abbrev pub EndsSound : Ending → Type 0
EndsSound (closed s events) = HasSoundTables s.db
EndsSound crashed = Unit
EndsSound out_of_fuel = ⊥

after_turn-EndsSound :
    (next : Chunks → Session → Client → Ending) (n : ℕ) (turn : Turn)
    → LeavesAtMost n turn
    → LeavesSound turn
    → ((cs : Chunks) (s : Session) (c : Client)
        → length (bytes cs) ≤ n
        → HasSoundTables s.db
        → EndsSound (next cs s c))
    → EndsSound (after_turn next turn)
after_turn-EndsSound next n (goes cs s c) le h go = go cs s c le h
after_turn-EndsSound next n (stops cs s c) le h go = h
after_turn-EndsSound next n (fails cs s c) le h go = same-HasSoundTables s.db s.db refl refl h
after_turn-EndsSound next n panics le h go = tt

-- Whatever bytes a client sends in a session, and however they are cut, the session comes to an end
-- within one round more than there are bytes, and unless the server panics it leaves the tables of
-- tunnels and hosts sound if they were: every entry once and under its id, no two secret tunnels with
-- one password, and no two hosts with one name, location and scheme.
pub get_config-EndsSound :
    (o : Outside) (fuel : ℕ) (cs : Chunks) (s : Session) (c : Client)
    → length (bytes cs) < fuel
    → HasSoundTables s.db
    → EndsSound (get_config o fuel cs s c)
unfolding get_config
get_config-EndsSound o zero cs s c enough h = absurd (omega (arith, enough))
get_config-EndsSound o (suc fuel) cs s c enough h = elim (Option-cases (read_flag cs).1) [
  | inl short ↦ rw (get_config, short) h
  | inr (flag, hit) ↦
      let left = (read_flag cs).0 in
      let four = length-read_flag cs flag hit in
      rw (get_config, hit)
        (after_turn-EndsSound (λ cs₁ s₁ c₁. get_config o fuel cs₁ s₁ c₁) (length (bytes left))
          (config_turn o flag left s c)
          (config_turn-LeavesAtMost o (length (bytes left)) flag left s c (omega arith))
          (config_turn-LeavesSound o flag left s c h)
          (λ cs₁ s₁ c₁ le sound.
            get_config-EndsSound o fuel cs₁ s₁ c₁ (omega (arith, four, le, enough)) sound))
]
