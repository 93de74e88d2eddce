-- ===== src/Client/Agreement.antt =====
-- client/control.go and bridge/bridge.go: a client with a key that the server knows is let in.
use nps_socks.Client.Handshake.{
  hi, told-out, greeted-out, greeted-some, told-some, keyed_by-out, keyed_by-some,
  cli_process-hello, short_content-Gives, flagged-out,
}
use nps_socks.Client.{Dialled, told, new_conn, connected, incorrect}
use nps_socks.Bridge.CliProcess.{cli_process, verified, flagged, type_deal, left_open}
use nps_socks.File.Clients.{get_id_by_verify_key}
use nps_socks.File.JsonDb.{JsonDb}
use nps_socks.Net.{Chunks, read_full}
use nps_socks.Net.Stream.{bytes, read_full_front, append_inj}
use nps_socks.Wire.RoundTrip.{Gives}
use nps_socks.Wire.{Reply, get_short_content, read_flag}
use nps_socks.Prelude.{
  Text, ℤ, Option, codes, beq_text, ◌≡◌, ◌≤◌, ◌++◌, some, none, length, refl, sym, ap, ◌∙◌, arith,
  text_eq, some_inj, subst, ==_iff,
}
use mathlib.Core.List.{append_assoc}

module _ (md5 : Text → Text) (core name vkey conn_type addr : Text) (C S : Chunks)
    (db : JsonDb) where
  abbrev dialled : Dialled
  dialled = new_conn md5 core name vkey conn_type S

  -- The two ends, each reading what the other has written.
  pub record Meets (later later' : Text) : Type 0 where
    pub digest : length (md5 vkey) ≡ 32
    pub digest' : length (md5 core) ≡ 32
    pub short : length core ≤ 32768
    pub short' : length name ≤ 32768
    pub from_client : bytes C ≡ (new_conn md5 core name vkey conn_type S).out ++ later
    pub from_server : bytes S ≡ (cli_process md5 core addr C db).out ++ later'

  -- What the server does, once it has read the digest of the key.
  record IsKeyed (later later' : Text) : Type 0 where
    after_key : Chunks
    after_version : Chunks
    tail : Text
    server :
        cli_process md5 core addr C db
        ≡ verified md5 core addr name after_key (get_id_by_verify_key md5 (md5 vkey) addr db)
    client :
        new_conn md5 core name vkey conn_type S
        ≡ told md5 core name vkey conn_type (read_flag after_version)
    written :
        (new_conn md5 core name vkey conn_type S).out
        ≡ hi md5 core name vkey conn_type addr ++ (md5 vkey ++ tail)
    left : bytes after_key ≡ tail ++ later
    answer : Text
    says : (cli_process md5 core addr C db).out ≡ md5 core ++ answer
    left' : bytes after_version ≡ answer ++ later'

  Meets-IsKeyed : (later later' : Text) → Meets later later' → IsKeyed later later'
  unfolding new_conn
  Meets-IsKeyed later later' m =
      let hi' = hi md5 core name vkey conn_type addr in
      let (t, first) = greeted-out md5 core name vkey conn_type addr (get_short_content 32 S) in
      let (D, server, rest) =
        cli_process-hello md5 core name vkey conn_type addr C db (t ++ later) m.short m.short'
          (m.from_client ∙ (ap (λ x. x ++ later) first ∙ append_assoc hi' t later)) in
      let (answer, says) =
        keyed_by-out md5 core name vkey conn_type addr db (get_short_content 32 D) in
      let says' = ap (λ g. g.out) server ∙ says in
      let version =
        short_content-Gives 32 (md5 core) (answer ++ later') S m.digest'
          (m.from_server ∙ (ap (λ x. x ++ later') says' ∙ append_assoc (md5 core) answer later')) in
      let r = get_short_content 32 S in
      let client =
        greeted-some md5 core name vkey conn_type addr r (md5 core) (answer ++ later') version in
      let (tail, second) = told-out md5 core name vkey conn_type addr (read_flag r.0) in
      let written = ap (λ d. d.out) client ∙ second in
      let again =
        cli_process-hello md5 core name vkey conn_type addr C db ((md5 vkey ++ tail) ++ later)
          m.short m.short'
          (m.from_client
            ∙ (ap (λ x. x ++ later) written ∙ append_assoc hi' (md5 vkey ++ tail) later)) in
      let key =
        short_content-Gives 32 (md5 vkey) (tail ++ later) again.0 m.digest
          (again.2 ∙ append_assoc (md5 vkey) tail later) in
      record {
        after_key = (get_short_content 32 again.0).0;
        after_version = r.0;
        tail = tail;
        server =
            again.1
            ∙ keyed_by-some md5 core name vkey conn_type addr db (get_short_content 32 again.0)
                (md5 vkey) (tail ++ later) key;
        client = client;
        written = written;
        left = key.1;
        answer = answer;
        says = says';
        left' = version.1;
      }

  verified-known :
      (cs : Chunks) (g : JsonDb × Option ℤ) (id : ℤ)
      → g.1 ≡ some id
      → verified md5 core addr name cs g ≡ flagged md5 core addr name g.0 id (read_flag cs)
  verified-known cs (db', none) id e = absurd (ground (arith, e))
  verified-known cs (db', some i) id e = rw (some_inj e) refl

  verified-unknown :
      (cs : Chunks) (g : JsonDb × Option ℤ)
      → g.1 ≡ none
      → (verified md5 core addr name cs g).ending ≡ left_open
        × ((verified md5 core addr name cs g).out ≡ md5 core ++ codes "vkey")
  verified-unknown cs (db', none) e = (refl, refl)
  verified-unknown cs (db', some i) e = absurd (ground (arith, e))

  flag-Gives :
      (s rest : Text) (cs : Chunks)
      → length s ≡ 4
      → bytes cs ≡ s ++ rest
      → Gives (read_flag cs) s rest
  unfolding read_flag
  flag-Gives s rest cs four e =
      subst (λ k. Gives (read_full k cs) s rest) four (read_full_front s rest cs e)

  flagged-some :
      (db' : JsonDb) (id : ℤ) (r : Reply Text) (flag u : Text)
      → Gives r flag u
      → (flagged md5 core addr name db' id r).ending ≡ type_deal flag id name r.0
  flagged-some db' id (cs, none) flag u (e, left) = absurd (ground (arith, e))
  flagged-some db' id (cs, some f) flag u (e, left) = rw (some_inj e) refl

  told-refused :
      (r : Reply Text) (u : Text)
      → Gives r (codes "vkey") u
      → (told md5 core name vkey conn_type r).ending ≡ incorrect
  told-refused (cs, none) u (e, left) = absurd (ground (arith, e))
  told-refused (cs, some s) u (e, left) =
      rw (some_inj e, (==_iff (codes "vkey") (codes "vkey")).1 refl) refl

  -- The last bytes of a client that was let in are its flag.
  tail-conn_type :
      (later later' : Text) (k : IsKeyed later later')
      → k.answer ≡ codes "sucs"
      → k.tail ≡ conn_type
  unfolding beq_text
  tail-conn_type later later' k sucs =
      let hi' = hi md5 core name vkey conn_type addr in
      let r = read_flag k.after_version in
      let said =
        flag-Gives (codes "sucs") later' k.after_version refl
          (k.left' ∙ ap (λ x. x ++ later') sucs) in
      let told_so = told-some md5 core name vkey conn_type addr r (codes "sucs") later' said refl in
      let same = sym k.written ∙ (ap (λ d. d.out) k.client ∙ ap (λ d. d.out) told_so) in
      let keys = append_inj hi' hi' (md5 vkey ++ k.tail) (md5 vkey ++ conn_type) refl same in
      (append_inj (md5 vkey) (md5 vkey) k.tail conn_type refl keys.1).1

  -- When each of the two ends reads what the other writes, however the network cuts it, and the server
  -- finds a client for the digest of the key, the client is connected and reads on behind the greeting,
  -- and the server hands the connection on with the kind of connection that the client asked for, the id
  -- it found and the version that the client sent, and reads on behind them. A digest has 32 bytes, the
  -- two versions have at most 32768 and the kind of connection 4.
  pub new_conn-cli_process :
      (later later' : Text) (id : ℤ)
      → Meets later later'
      → length conn_type ≡ 4
      → (get_id_by_verify_key md5 (md5 vkey) addr db).1 ≡ some id
      → (A B : Chunks) × ((new_conn md5 core name vkey conn_type S).ending ≡ connected A)
        × (bytes A ≡ later')
        × ((cli_process md5 core addr C db).ending ≡ type_deal conn_type id name B)
        × (bytes B ≡ later)
  unfolding beq_text
  new_conn-cli_process later later' id m four known =
      let k = Meets-IsKeyed later later' m in
      let g = get_id_by_verify_key md5 (md5 vkey) addr db in
      let server = k.server ∙ verified-known k.after_key g id known in
      let out =
        ap (λ s. s.out) server
        ∙ flagged-out md5 core name vkey conn_type addr g.0 id (read_flag k.after_key) in
      let sucs =
        (append_inj (md5 core) (md5 core) k.answer (codes "sucs") refl (sym k.says ∙ out)).1 in
      let said =
        flag-Gives (codes "sucs") later' k.after_version refl
          (k.left' ∙ ap (λ x. x ++ later') sucs) in
      let told_so =
        told-some md5 core name vkey conn_type addr (read_flag k.after_version) (codes "sucs")
          later' said refl in
      let asked =
        flag-Gives conn_type later k.after_key four
          (k.left ∙ ap (λ x. x ++ later) (tail-conn_type later later' k sucs)) in
      (
        (read_flag k.after_version).0,
        (read_flag k.after_key).0,
        ap (λ d. d.ending) k.client ∙ ap (λ d. d.ending) told_so,
        said.1,
        ap (λ s. s.ending) server
            ∙ flagged-some g.0 id (read_flag k.after_key) conn_type later asked,
        asked.1,
      )

  -- When the server finds no client for the digest of the key, the client learns that its key is
  -- incorrect, and the server hands nothing on.
  pub new_conn-incorrect :
      (later later' : Text)
      → Meets later later'
      → (get_id_by_verify_key md5 (md5 vkey) addr db).1 ≡ none
      → ((new_conn md5 core name vkey conn_type S).ending ≡ incorrect)
        × ((cli_process md5 core addr C db).ending ≡ left_open)
  new_conn-incorrect later later' m unknown =
      let k = Meets-IsKeyed later later' m in
      let g = get_id_by_verify_key md5 (md5 vkey) addr db in
      let (open_left, refused) = verified-unknown k.after_key g unknown in
      let out = ap (λ s. s.out) k.server ∙ refused in
      let vkey_said =
        (append_inj (md5 core) (md5 core) k.answer (codes "vkey") refl (sym k.says ∙ out)).1 in
      let said =
        flag-Gives (codes "vkey") later' k.after_version refl
          (k.left' ∙ ap (λ x. x ++ later') vkey_said) in
      (
        ap (λ d. d.ending) k.client ∙ told-refused (read_flag k.after_version) later' said,
        ap (λ s. s.ending) k.server ∙ open_left,
      )
