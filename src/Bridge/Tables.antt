-- ===== src/Bridge/Tables.antt =====
-- bridge/bridge.go, `getConfig`: the tables that a session must keep sound.
use nps_socks.Bridge.GetConfig.{stored_or}
use nps_socks.File.Hosts.Unique.{new_host-IsSound}
use nps_socks.File.Tasks.Secrets.{new_task-IsSound}
use nps_socks.SyncMap.{Keyed, Distinct, load, values}
use nps_socks.File.Obj.{Tunnel, Host}
use nps_socks.Prelude.{
  ◌≡◌, subst, some, Bool-cases, sym, any, inl, arith, inr, ap, ◌&&◌, some_inj, ◌==◌, ◌∙◌, text_eq,
  nat_eq,
}
use nps_socks.File.Hosts.{new_host, located, is_host_exist}
use nps_socks.File.Tasks.{new_task, is_secret}
use nps_socks.File.JsonDb.{JsonDb, Codec, store_tasks_to_json_file, store_hosts_to_json_file}
use nps_socks.File.Tasks.Secrets
use nps_socks.File.Hosts.Unique

-- No two secret tunnels have one password, and no two hosts one host, location and scheme; each table has
-- every entry once and under its id.
pub record HasSoundTables (s : JsonDb) : Type 0 where
  pub tasks : Secrets.IsSound s
  pub hosts : Unique.IsSound s

same_tasks : (s s' : JsonDb) → s'.tasks ≡ s.tasks → Secrets.IsSound s → Secrets.IsSound s'
same_tasks s s' e h = record {
  keyed = subst (Keyed (λ t. t.id)) (sym e) h.keyed;
  distinct = subst Distinct (sym e) h.distinct;
  unique = λ i j a b p q. h.unique i j a b (ap (load i) (sym e) ∙ p) (ap (load j) (sym e) ∙ q);
}

same_hosts : (s s' : JsonDb) → s'.hosts ≡ s.hosts → Unique.IsSound s → Unique.IsSound s'
same_hosts s s' e h = record {
  keyed = subst (Keyed (λ t. t.id)) (sym e) h.keyed;
  distinct = subst Distinct (sym e) h.distinct;
  apart = λ i j a b p q. h.apart i j a b (ap (load i) (sym e) ∙ p) (ap (load j) (sym e) ∙ q);
}

pub same-HasSoundTables :
    (s s' : JsonDb) → s'.tasks ≡ s.tasks → s'.hosts ≡ s.hosts → HasSoundTables s → HasSoundTables s'
same-HasSoundTables s s' e f h = record {
  tasks = same_tasks s s' e h.tasks;
  hosts = same_hosts s s' f h.hosts;
}

new_task-hosts :
    (codec : Codec) (t : Tunnel) (s s' : JsonDb) → new_task codec t s ≡ some s' → s'.hosts ≡ s.hosts
unfolding new_task store_tasks_to_json_file
new_task-hosts codec t s s' done =
    elim (Bool-cases (any (λ v. is_secret v && v.password == t.password) (values s.tasks))) [
      | inl taken ↦ absurd (ground (arith, rw taken at done))
      | inr free ↦ ap (λ d. d.hosts) (sym (some_inj (rw free at done)))
    ]

new_host-tasks :
    (codec : Codec) (t : Host) (s s' : JsonDb) → new_host codec t s ≡ some s' → s'.tasks ≡ s.tasks
unfolding new_host store_hosts_to_json_file
new_host-tasks codec t s s' done = elim (Bool-cases (is_host_exist (located t) s)) [
  | inl taken ↦ absurd (ground (arith, rw taken at done))
  | inr free ↦ ap (λ d. d.tasks) (sym (some_inj (rw free at done)))
]

pub new_task-HasSoundTables :
    (codec : Codec) (t : Tunnel) (s s' : JsonDb)
    → new_task codec t s ≡ some s'
    → HasSoundTables s
    → HasSoundTables s'
new_task-HasSoundTables codec t s s' done h = elim (new_task-IsSound codec t s h.tasks) [
  | inl (failed, taken) ↦ absurd (ground (arith, done, failed))
  | inr (s₁, same, sound, entries) ↦ record {
    tasks = subst Secrets.IsSound (some_inj (sym same ∙ done)) sound;
    hosts = same_hosts s s' (new_task-hosts codec t s s' done) h.hosts;
  }
]

pub new_host-HasSoundTables :
    (codec : Codec) (t : Host) (s : JsonDb)
    → HasSoundTables s
    → HasSoundTables (stored_or s (new_host codec t s))
new_host-HasSoundTables codec t s h = elim (new_host-IsSound codec t s h.hosts) [
  | inl (failed, taken) ↦ rw failed h
  | inr (s₁, same, sound, entries) ↦
      rw same (record {
        tasks = same_tasks s s₁ (new_host-tasks codec t s s₁ same) h.tasks;
        hosts = sound;
      })
]
