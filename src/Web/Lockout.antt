-- ===== src/Web/Lockout.antt =====
-- web/controllers/login.go: how failed logins lock an address out, and whom a login lets in.
use nps_socks.Web.Login.{
  Failures, Records, Gate, load_record, store_record, is_old, clear_ip_record, is_admin_login,
  user_for, do_login,
}
use nps_socks.File.JsonDb.{JsonDb}
use nps_socks.File.Obj.{Client}
use nps_socks.Prelude.{
  Text, Bool, Option, ℤ, ℕ, List, text_eq, ==_refl, pos, ◌+ℤ◌, wrap64, none, some, true, false,
  arith, ◌≡◌, refl, ◌+◌, ◌≤◌, ◌<◌, length, ◌∙◌, ◌∷◌, [], leb_ℤ,
}

load-store_self :
    (ip : Text) (v : Failures) (m : Records) → load_record ip (store_record ip v m) ≡ some v
load-store_self ip v [] = ground (arith, ==_refl ip)
load-store_self ip v ((k, w) ∷ m) = ground (arith, ==_refl ip, load-store_self ip v m)

load-clear :
    (cleans : Bool) (ip : Text) (now : ℤ) (v : Failures) (m : Records)
    → load_record ip m ≡ some v
    → is_old now v ≡ false
    → load_record ip (clear_ip_record cleans now m) ≡ some v
load-clear cleans ip now v [] at recent = cc
load-clear cleans ip now v ((k, w) ∷ m) at recent =
    ground (arith, at, recent, load-clear cleans ip now v m)

load-clear_none :
    (cleans : Bool) (ip : Text) (now : ℤ) (m : Records)
    → load_record ip m ≡ none
    → load_record ip (clear_ip_record cleans now m) ≡ none
load-clear_none cleans ip now [] at = refl
load-clear_none cleans ip now ((k, w) ∷ m) at = ground (arith, at, load-clear_none cleans ip now m)

-- One attempt to log in; `cleans` is the draw of `clearIprecord`.
pub record Attempt : Type 0 where
  pub username : Text
  pub password : Text
  pub now : ℤ
  pub cleans : Bool

module _ (admin_name admin_password : Text) (allows_users : Bool) (ip peer : Text)
    (db : JsonDb) where
  -- An explicit login from the address.
  abbrev pub attempt : Attempt → Gate → Gate × Bool
  attempt a =
      do_login admin_name admin_password allows_users a.cleans true ip peer a.username a.password
        a.now db

  abbrev pub run : List Attempt → Gate → Gate
  run [] g = g
  run (a ∷ more) g = run more (attempt a g).0

  abbrev pub user_found : Attempt → Option Client
  user_found a =
      user_for admin_name admin_password allows_users a.cleans true a.username a.password db

  -- Neither the administrator nor a user has the credentials.
  abbrev pub IsWrong : Attempt → Type 0
  IsWrong a =
      (is_admin_login admin_name admin_password allows_users a.cleans true a.username a.password
        ≡ false)
      × (user_found a ≡ none)

  -- Less than a minute has gone by since.
  abbrev pub IsWithin : ℤ → Attempt → Type 0
  IsWithin last a =
      is_old a.now (record { has_login_fail_times = pos 0; last_login_time = last }) ≡ false

  -- Wrong attempts, each within a minute of the one before, the last of them at a time.
  abbrev pub FailsUntil : ℤ → List Attempt → ℤ → Type 0
  FailsUntil last [] end = last ≡ end
  FailsUntil last (a ∷ more) end = IsWithin last a × IsWrong a × FailsUntil a.now more end

  Counts : ℕ → ℤ → Gate → Type 0
  Counts n last g =
      load_record ip g.ip_record
      ≡ some (record { has_login_fail_times = pos n; last_login_time = last })

  attempt-first :
      (a : Attempt) (g : Gate)
      → load_record ip g.ip_record ≡ none
      → IsWrong a
      → Counts 1 a.now (attempt a g).0 × ((attempt a g).0.session ≡ g.session)
  unfolding Counts do_login
  attempt-first a g absent (stranger, unknown) =
      let m = clear_ip_record a.cleans a.now g.ip_record in
      let first = load-clear_none a.cleans ip a.now g.ip_record absent in
      let w : Failures = record { has_login_fail_times = pos 1; last_login_time = a.now } in
      rw (do_login, first, stranger, unknown) (rw first (load-store_self ip w m), refl)

  attempt-next :
      (n : ℕ) (last : ℤ) (a : Attempt) (g : Gate)
      → n < 10
      → Counts n last g
      → IsWithin last a
      → IsWrong a
      → Counts (n + 1) a.now (attempt a g).0 × ((attempt a g).0.session ≡ g.session)
  unfolding Counts do_login wrap64 ◌+ℤ◌
  attempt-next n last a g few count within (stranger, unknown) =
      let v : Failures = record { has_login_fail_times = pos n; last_login_time = last } in
      let m = clear_ip_record a.cleans a.now g.ip_record in
      let at = load-clear a.cleans ip a.now v g.ip_record count within in
      let below : leb_ℤ (pos 10) (pos n) ≡ false = ground arith in
      let again : Failures = record {
        has_login_fail_times = pos (n + 1);
        last_login_time = a.now;
      } in
      let one_more : wrap64 (pos n +ℤ pos 1) ≡ pos (n + 1) = ground arith in
      rw (do_login, at, within, below, stranger, unknown, load-store_self ip v m, one_more)
        (load-store_self ip again (store_record ip v m), refl)

  attempt-locked :
      (last : ℤ) (a : Attempt) (g : Gate)
      → Counts 10 last g
      → IsWithin last a
      → ((attempt a g).1 ≡ false) × ((attempt a g).0.session ≡ g.session)
  unfolding Counts do_login
  attempt-locked last a g count within =
      let v : Failures = record { has_login_fail_times = pos 10; last_login_time = last } in
      let at = load-clear a.cleans ip a.now v g.ip_record count within in
      rw (do_login, at, within) (refl, refl)

  run-Counts :
      (n : ℕ) (last end : ℤ) (more : List Attempt) (g : Gate)
      → n + length more ≤ 10
      → Counts n last g
      → FailsUntil last more end
      → Counts (n + length more) end (run more g) × ((run more g).session ≡ g.session)
  unfolding Counts
  run-Counts n last end [] g few count fails = (ground (arith, count, fails), refl)
  run-Counts n last end (a ∷ more) g few count (within, wrong, rest) =
      let (next, same) = attempt-next n last a g (omega arith) count within wrong in
      let (later, kept) =
        run-Counts (n + 1) a.now end more (attempt a g).0 (omega arith) next rest in
      (ground (arith, later), kept ∙ same)

  -- Ten logins that fail, the first of an address without a record and each within a minute of the one
  -- before, lock the address out: a further login within a minute of the last of them fails whatever its
  -- credentials are, also the right ones. The session stays as it was.
  pub attempt-run :
      (first b : Attempt) (more : List Attempt) (end : ℤ) (g : Gate)
      → load_record ip g.ip_record ≡ none
      → IsWrong first
      → length more ≡ 9
      → FailsUntil first.now more end
      → IsWithin end b
      → ((attempt b (run (first ∷ more) g)).1 ≡ false)
        × ((attempt b (run (first ∷ more) g)).0.session ≡ g.session)
  unfolding Counts
  attempt-run first b more end g absent wrong nine fails within =
      let (one, same) = attempt-first first g absent wrong in
      let (ten, kept) =
        run-Counts 1 first.now end more (attempt first g).0 (omega (arith, nine)) one fails in
      let (refused, stays) =
        attempt-locked end b (run more (attempt first g).0) (ground (arith, ten, nine)) within in
      (refused, stays ∙ (kept ∙ same))
