-- ===== src/Tests/Web.antt =====
-- The web interface of web/controllers at concrete inputs.
use nps_socks.Web.Guarded.{act-Spares, stop_action}
use nps_socks.Web.Unguarded.{edit_host-IsDouble, IsDouble}
use nps_socks.Web.Keys.{edit-IsSound}
use nps_socks.Web.Lockout.{Attempt, attempt, run, attempt-run}
use nps_socks.Web.Login.{Gate}
use nps_socks.Web.Access.{Session, prepare}
use nps_socks.Web.Request.{Request, set_param}
use nps_socks.Web.Clients.{edit}
use nps_socks.Web.Hosts.{edit_host}
use nps_socks.Web.Tunnels.{ok}
use nps_socks.File.Clients.Keys.{IsSound}
use nps_socks.File.JsonDb.{JsonDb}
use nps_socks.File.Obj.{Tunnel, Host}
use nps_socks.Server.Stopping.{HasIds}
use nps_socks.Server.{Server, stop_server}
use nps_socks.SyncMap.{load}
use nps_socks.Prelude.{
  Text, ℤ, List, ◌≡◌, refl, pos, codes, some, none, true, false, beq_text, arith, replicate, ◌∷◌,
  ==_iff, [], if◌then◌else◌, ◌==◌, text_eq, int_eq,
}
use nps_socks.Tests.Db.{alice, bob, ids, office, office-IsSound}
use nps_socks.Tests.Tasks.{calm, tunnel_one}
use nps_socks.Tests.Tunnels.{site}
use nps_socks.Web.Request.{get_escape_string}
use nps_socks.Web.Request.{get_int_no_err}
use nps_socks.Strconv.{atoi}
use nps_socks.Prelude.{contains}
use nps_socks.Strconv.{itoa}
use nps_socks.File.JsonDb.{get_task_id}
use nps_socks.Prelude.{wrap32}
use nps_socks.Prelude.{◌+ℤ◌}
use nps_socks.Web.Tunnels.{stop}
use nps_socks.File.Tasks.{get_task}
use nps_socks.Prelude.{wrap64}
use nps_socks.Prelude.{◌-ℤ◌}

abbrev form : List (Text × Text) → Text → Text
form [] k = []
form ((j, v) ∷ m) k = let rest = form m k in if j == k then v else rest

abbrev posted : List (Text × Text) → Request
posted m = record { is_get = false; query = form m }

abbrev user : Session
user = record {
  auth = true;
  is_admin = some false;
  client_id = some (pos 2);
  username = some (codes "bob");
}

abbrev tunnel_two : Tunnel
tunnel_two = record tunnel_one { id = pos 2; client = bob }

abbrev two_tunnels : Server
two_tunnels = record {
  db = record office {
    tasks = (pos 1, tunnel_one) ∷ (pos 2, tunnel_two) ∷ [];
    task_increase_id = pos 2;
  };
  run_list = (pos 2, none) ∷ [];
}

two_tunnels-HasIds : HasIds two_tunnels
unfolding load
two_tunnels-HasIds k t at = ground (arith, ==_iff (pos 1) k, ==_iff (pos 2) k, at)

abbrev stop_two : Request
stop_two = posted ((codes "id", codes "2") ∷ [])

abbrev as_bob : Request → Request
as_bob = set_param (codes "client_id") (codes "2")

act-Spares_example :
    load (pos 1) (stop_server ids calm (pos 2) two_tunnels).0.db.tasks ≡ some tunnel_one
unfolding beq_text load prepare get_escape_string get_int_no_err atoi contains itoa get_task_id
    wrap32 ◌+ℤ◌ stop stop_server get_task
act-Spares_example =
    act-Spares ids calm 1 [] [] (λ t. t) (pos 0) [] (codes "k") stop_action (pos 2) stop_two
      (as_bob stop_two) user user two_tunnels (stop_server ids calm (pos 2) two_tunnels).0 ok refl
      refl two_tunnels-HasIds refl refl refl (pos 1) tunnel_one refl (ground arith)

abbrev black : Request
black = posted ((codes "globalBlackIpList", codes "1.2.3.4") ∷ [])

-- Two hosts of one name, told apart by their locations.
abbrev docs : Host
docs = record site { id = pos 8; location = codes "/docs" }

abbrev two_hosts : JsonDb
two_hosts = record office { hosts = (pos 7, record site { id = pos 7 }) ∷ (pos 8, docs) ∷ [] }

abbrev move : Request
move = posted (
    (codes "id", codes "7")
    ∷ (codes "client_id", codes "1")
    ∷ (codes "host", codes "a.com")
    ∷ (codes "location", codes "/docs")
    ∷ (codes "scheme", codes "all")
    ∷ [])

edit_host-IsDouble_example :
    ((edit_host ids move two_hosts).1 ≡ ok) × IsDouble ids (pos 7) (edit_host ids move two_hosts).0
unfolding beq_text load get_int_no_err atoi get_escape_string
edit_host-IsDouble_example =
    edit_host-IsDouble ids move two_hosts (record site { id = pos 7 }) docs alice refl refl refl
      refl refl refl (ground arith) refl refl refl refl

edit-IsSound_example :
    IsSound
      (edit ids (codes "admin") true (some true) (posted ((codes "id", codes "1") ∷ [])) office).0
edit-IsSound_example =
    edit-IsSound ids (codes "admin") true (some true) (posted ((codes "id", codes "1") ∷ [])) office
      office-IsSound

abbrev nobody : Gate
nobody = record {
  session = record { auth = false; is_admin = none; client_id = none; username = none };
  ip_record = [];
  register = [];
}

-- A guess at a second.
abbrev guess : Text → ℤ → Attempt
guess password now = record {
  username = codes "admin";
  password = password;
  now = now;
  cleans = true;
}

abbrev guesses : List Attempt
guesses = replicate 9 (guess (codes "x") (pos 5))

abbrev right : Attempt
right = guess (codes "pass") (pos 9)

attempt-run_example :
    ((attempt (codes "admin") (codes "pass") true (codes "9.9.9.9") (codes "9.9.9.9") office right (
        run
          (codes "admin")
          (codes "pass")
          true
          (codes "9.9.9.9")
          (codes "9.9.9.9")
          office
          (guess (codes "y") (pos 4) ∷ guesses)
          nobody)).1
      ≡ false)
    × ((attempt
          (codes "admin")
          (codes "pass")
          true
          (codes "9.9.9.9")
          (codes "9.9.9.9")
          office
          right
          (run
            (codes "admin")
            (codes "pass")
            true
            (codes "9.9.9.9")
            (codes "9.9.9.9")
            office
            (guess (codes "y") (pos 4) ∷ guesses)
            nobody)).0.session
        ≡ nobody.session)
unfolding beq_text wrap64 ◌-ℤ◌
attempt-run_example =
    attempt-run (codes "admin") (codes "pass") true (codes "9.9.9.9") (codes "9.9.9.9") office
      (guess (codes "y") (pos 4)) right guesses (pos 5) nobody refl (refl, refl) refl
      (
        refl,
        (refl, refl),
        (
          refl,
          (refl, refl),
          (
            refl,
            (refl, refl),
            (
              refl,
              (refl, refl),
              (
                refl,
                (refl, refl),
                (
                  refl,
                  (refl, refl),
                  (refl, (refl, refl), (refl, (refl, refl), (refl, (refl, refl), refl))),
                ),
              ),
            ),
          ),
        ),
      )
      refl
