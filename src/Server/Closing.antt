-- ===== src/Server/Closing.antt =====
-- server/server.go, `DelTunnelAndHostByClientId` and `DealBridgeTask`: what goes when a client goes.
use nps_socks.File.Clients.{del_client}
use nps_socks.File.Obj.{Tunnel, Host, Client}
use nps_socks.File.Hosts.{del_host}
use nps_socks.Server.{
  Env, Server, del_tasks, del_hosts, without_client, deal_bridge_task,
  del_tunnel_and_host_by_client_id, close_client, is_closed_with, Service,
}
use nps_socks.File.JsonDb.{Codec, store_hosts_to_json_file, JsonDb, store_clients_to_json_file}
use nps_socks.SyncMap.{load, Table, Keyed, Distinct, values, load-delete, id-load}
use nps_socks.Prelude.{
  Bool, List, Option, ℤ, false, ◌≡◌, true, some, if◌then◌else◌, none, map, arith, ◌==◌, inl, select,
  ==_iff, ◌∙◌, ◌∷◌, inr, int_eq, [], refl, ◌&&◌, Option-cases, ℕ, Bool-cases, ap, sym,
}
use nps_socks.Server.Stopping.{HasIds, IsStuck, Changes, Removed, del_task_exact}
use nps_socks.Common.Arrays.{in_int_arr}
use nps_socks.Server.{del_task}

abbrev pub passes : {V : Type 0} → (V → Bool) → Option V → Bool
passes p none = false
passes p (some v) = p v

-- The ids of the chosen entries.
in_int_arr-select :
    {V : Type 0} (id : V → ℤ) (p q : V → Bool) (m : Table V) (k : ℤ)
    → ((v : V) → p v ≡ q v)
    → Keyed id m
    → Distinct m
    → in_int_arr (map id (select p (values m))) k ≡ passes q (load k m)
unfolding in_int_arr load
in_int_arr-select id p q [] k same keyed d = refl
in_int_arr-select id p q ((j, v) ∷ m) k same keyed d =
    ground (arith, keyed.0, d.0, same v, ==_iff j k, in_int_arr-select id p q m k same keyed.1 d.1)

-- The table without the entries of the ids.
abbrev pub Without : {V : Type 0} → List ℤ → Table V → Table V → Type 0
Without ids old new = (k : ℤ) → load k new ≡ (if in_int_arr ids k then none else load k old)

module _ (codec : Codec) (e : Env) where
  pub del_hosts-Without :
      (ids : List ℤ) (db : JsonDb)
      → Without ids db.hosts (del_hosts codec e ids db).hosts
        × ((del_hosts codec e ids db).tasks ≡ db.tasks)
        × ((del_hosts codec e ids db).clients ≡ db.clients)
  unfolding in_int_arr del_host store_hosts_to_json_file
  del_hosts-Without [] db = (λ k. refl, refl, refl)
  del_hosts-Without (id ∷ ids) db =
      let (hs, ts, cs) = del_hosts-Without ids (del_host codec id db) in
      (λ k. ground (arith, hs k, load-delete id k db.hosts), ts, cs)

-- The chosen tasks that run are tasks of the table.
abbrev IsKnownAt : List ℤ → Server → Type 0
IsKnownAt ids s =
    (k : ℤ) (v : Option Service)
    → in_int_arr ids k ≡ true
    → load k s.run_list ≡ some v
    → (t : Tunnel) × (load k s.db.tasks ≡ some t)

in_int_arr_head : (id : ℤ) (ids : List ℤ) → in_int_arr (id ∷ ids) id ≡ true
unfolding in_int_arr
in_int_arr_head id ids = ground (arith, ==_iff id id)

in_int_arr_first :
    (id : ℤ) (ids : List ℤ) (k : ℤ) → in_int_arr (id ∷ []) k ≡ true → in_int_arr (id ∷ ids) k ≡ true
unfolding in_int_arr
in_int_arr_first id ids k h = ground (arith, h)

in_int_arr_later :
    (id : ℤ) (ids : List ℤ) (k : ℤ) → in_int_arr ids k ≡ true → in_int_arr (id ∷ ids) k ≡ true
unfolding in_int_arr
in_int_arr_later id ids k h = ground (arith, h)

passes-some :
    {V : Type 0} (p : V → Bool) (o : Option V) → passes p o ≡ true → (v : V) × (o ≡ some v)
passes-some p none h = absurd (ground (arith, h))
passes-some p (some v) h = (v, refl)

module _ (codec : Codec) (e : Env) (closes : (k : ℤ) → e.closes k ≡ true) where
  -- A task of the table that runs is not stuck.
  not-IsStuck : (id : ℤ) (s : Server) → IsKnownAt (id ∷ []) s → ¬ IsStuck codec e id s
  not-IsStuck id s known (none, runs, inl refuses) = absurd (ground arith)
  not-IsStuck id s known (some v, runs, inl refuses) = ground (arith, refuses, closes id)
  not-IsStuck id s known (v, runs, inr unknown) =
      let (t, at) = known id v (in_int_arr_head id []) runs in ground (arith, at, unknown)

  Removed-del_task :
      (id : ℤ) (s : Server)
      → HasIds s
      → IsKnownAt (id ∷ []) s
      → Removed id s (del_task codec e id s).0
  Removed-del_task id s ids known = elim (del_task_exact codec e id s ids) [
    | inl (stuck, same) ↦ absurd (not-IsStuck id s known stuck)
    | inr (able, ok, removed) ↦ removed
  ]

  Removed-HasIds : (id : ℤ) (s s' : Server) → Removed id s s' → HasIds s → HasIds s'
  Removed-HasIds id s s' r h k t at = ground (arith, r.tasks k, ==_iff id k, h k t)

  Removed-IsKnownAt :
      (id : ℤ) (ids : List ℤ) (s s' : Server) → Removed id s s' → IsKnownAt ids s → IsKnownAt ids s'
  Removed-IsKnownAt id ids s s' r h k v chosen runs =
      let other : (id == k) ≡ false = ground (arith, r.run_list k) in
      let (t, at) = h k v chosen (ground (arith, r.run_list k, other)) in
      (t, r.tasks k ∙ rw other at)

  del_tasks-Without :
      (ids : List ℤ) (s : Server)
      → HasIds s
      → IsKnownAt ids s
      → Without ids s.db.tasks (del_tasks codec e ids s).db.tasks
        × Without ids s.run_list (del_tasks codec e ids s).run_list
        × ((del_tasks codec e ids s).db.hosts ≡ s.db.hosts)
        × ((del_tasks codec e ids s).db.clients ≡ s.db.clients)
  unfolding in_int_arr
  del_tasks-Without [] s h known = (λ k. refl, λ k. refl, refl, refl)
  del_tasks-Without (id ∷ ids) s h known =
      let s₁ = (del_task codec e id s).0 in
      let r =
        Removed-del_task id s h (λ k v one runs. known k v (in_int_arr_first id ids k one) runs) in
      let rest = λ (k : ℤ) (v : Option Service) (chosen : in_int_arr ids k ≡ true).
        known k v (in_int_arr_later id ids k chosen) in
      let (ts, rs, hs, cs) =
        del_tasks-Without ids s₁ (Removed-HasIds id s s₁ r h)
          (Removed-IsKnownAt id ids s s₁ r rest) in
      (
        λ k. ground (arith, ts k, r.tasks k),
        λ k. ground (arith, rs k, r.run_list k),
        hs ∙ r.hosts,
        cs ∙ r.clients,
      )

-- The table without the entries that pass.
abbrev pub kept : {V : Type 0} → (V → Bool) → Option V → Option V
kept p old = if passes p old then none else old

-- The tunnels and the hosts that the client brought.
abbrev pub brought_task : ℤ → Tunnel → Bool
brought_task id v = v.no_store && v.client.id == id

abbrev pub brought_host : ℤ → Host → Bool
brought_host id v = v.no_store && v.client.id == id

-- What is left when what the client of an id brought is gone.
pub record Cleared (id : ℤ) (s s' : Server) : Type 0 where
  pub tasks : (k : ℤ) → load k s'.db.tasks ≡ kept (brought_task id) (load k s.db.tasks)
  pub run_list :
      (k : ℤ)
      → load k s'.run_list
        ≡ (if passes (brought_task id) (load k s.db.tasks) then none else load k s.run_list)
  pub hosts : (k : ℤ) → load k s'.db.hosts ≡ kept (brought_host id) (load k s.db.hosts)
  pub clients : s'.db.clients ≡ s.db.clients

-- What is left when the client of an id is gone.
pub record Closed (id : ℤ) (s s' : Server) : Type 0 where
  pub tasks : (k : ℤ) → load k s'.db.tasks ≡ kept (brought_task id) (load k s.db.tasks)
  pub run_list :
      (k : ℤ)
      → load k s'.run_list
        ≡ (if passes (brought_task id) (load k s.db.tasks) then none else load k s.run_list)
  pub hosts : (k : ℤ) → load k s'.db.hosts ≡ kept (brought_host id) (load k s.db.hosts)
  pub clients : Changes id (kept (λ (c : Client). c.no_store)) s.db.clients s'.db.clients

-- Taking the client away, if it is not stored, leaves the rest.
pub record Leaves (id : ℤ) (s s' : Server) : Type 0 where
  pub clients : Changes id (kept (λ (c : Client). c.no_store)) s.db.clients s'.db.clients
  pub tasks : s'.db.tasks ≡ s.db.tasks
  pub hosts : s'.db.hosts ≡ s.db.hosts
  pub run_list : s'.run_list ≡ s.run_list

module _ (codec : Codec) (e : Env) where
  pub without_client-Leaves : (id : ℤ) (s : Server) → Leaves id s (without_client codec e id s)
  unfolding del_client store_clients_to_json_file
  without_client-Leaves id s = elim (Option-cases (load id s.db.clients)) [
    | inl absent ↦
        rw (without_client, absent)
          (record {
            clients = λ k. ground (arith, ==_iff id k, absent);
            tasks = refl;
            hosts = refl;
            run_list = refl;
          })
    | inr (c, at) ↦ elim (Bool-cases c.no_store) [
      | inl temporary ↦
          rw (without_client, at, temporary)
            (record {
              clients =
                  λ k. ground (arith, load-delete id k s.db.clients, ==_iff id k, at, temporary);
              tasks = refl;
              hosts = refl;
              run_list = refl;
            })
      | inr stays ↦
          rw (without_client, at, stays)
            (record {
              clients = λ k. ground (arith, ==_iff id k, at, stays);
              tasks = refl;
              hosts = refl;
              run_list = refl;
            })
    ]
  ]

  del_tunnel_and_host_by_client_id-Cleared :
      ((k : ℤ) → e.closes k ≡ true)
      → (id : ℤ) (s : Server) → Keyed (λ t. t.id) s.db.tasks
      → Distinct s.db.tasks
      → Keyed (λ h. h.id) s.db.hosts
      → Distinct s.db.hosts
      → Cleared id s (del_tunnel_and_host_by_client_id codec e id true s)
  unfolding del_tunnel_and_host_by_client_id
  del_tunnel_and_host_by_client_id-Cleared closes id s tk td hk hd =
      let p = λ (v : Tunnel). is_closed_with codec e id true v.no_store v.client.id in
      let q = λ (v : Host). is_closed_with codec e id true v.no_store v.client.id in
      let s₁ = del_tasks codec e (map (λ v. v.id) (select p (values s.db.tasks))) s in
      let hosts = map (λ (h : Host). h.id) (select q (values s₁.db.hosts)) in
      let here = λ (k : ℤ).
        in_int_arr-select (λ t. t.id) p (brought_task id) s.db.tasks k (λ v. ground arith) tk td in
      let (ts, rs, hs, cs) =
        del_tasks-Without codec e closes (map (λ v. v.id) (select p (values s.db.tasks))) s
          (λ k t. id-load (λ t. t.id) k t s.db.tasks tk)
          (λ k v chosen runs.
            passes-some (brought_task id) (load k s.db.tasks) (sym (here k) ∙ chosen)) in
      let there = λ (k : ℤ).
        in_int_arr-select (λ h. h.id) q (brought_host id) s.db.hosts k (λ v. ground arith) hk hd in
      let (hs₁, ts₁, cs₁) = del_hosts-Without codec e hosts s₁.db in
      record {
        tasks =
            λ k. ap (load k) ts₁ ∙ ts k ∙ ap (λ b. if b then none else load k s.db.tasks) (here k);
        run_list = λ k. rs k ∙ ap (λ b. if b then none else load k s.run_list) (here k);
        hosts = λ k. hs₁ k ∙ rw hs (ap (λ b. if b then none else load k s.db.hosts) (there k));
        clients = cs₁ ∙ cs;
      }

  -- The message that a client is gone takes away exactly the tunnels and hosts of that client that are
  -- not stored, stops exactly these tunnels, and takes away the client if it is not stored; nothing else
  -- leaves the tables or the run list. The tables of tunnels and hosts hold each id once and every
  -- entry under its id, and the Close of each service succeeds.
  pub deal_bridge_task-close_client :
      ((k : ℤ) → e.closes k ≡ true)
      → (fuel : ℕ) (id : ℤ) (s : Server) → Keyed (λ t. t.id) s.db.tasks
      → Distinct s.db.tasks
      → Keyed (λ h. h.id) s.db.hosts
      → Distinct s.db.hosts
      → (s' : Server) × (deal_bridge_task codec e fuel (close_client id) s ≡ some s')
        × Closed id s s'
  unfolding deal_bridge_task
  deal_bridge_task-close_client closes fuel id s tk td hk hd =
      let s₁ = del_tunnel_and_host_by_client_id codec e id true s in
      let c = del_tunnel_and_host_by_client_id-Cleared closes id s tk td hk hd in
      let l = without_client-Leaves id s₁ in
      (
        without_client codec e id s₁,
        refl,
        record {
          tasks = λ k. ap (load k) l.tasks ∙ c.tasks k;
          run_list = λ k. ap (load k) l.run_list ∙ c.run_list k;
          hosts = λ k. ap (load k) l.hosts ∙ c.hosts k;
          clients = λ k.
              l.clients k
              ∙ ap (λ m. if id == k then kept (λ (c : Client). c.no_store) (load k m) else load k m)
                  c.clients;
        },
      )
