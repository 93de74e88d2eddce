-- ===== src/Socks.antt =====
-- server/proxy/socks5.go: the SOCKS5 handshake of one connection. Writes succeed.
pub mod Access
pub mod Connect
use nps_socks.Net.{Chunks, read, read_full}
use nps_socks.Prelude.{
  List, ℕ, Text, Option, Bool, ltb, ◌++◌, none, false, not, ◌∷◌, [], get_or, some, if◌then◌else◌,
  ◌==◌, replicate, length, true, leb, ◌-◌, ◌&&◌, ◌||◌, text_eq, nat_eq, drop, take,
}
use nps_socks.Common.Bytes.{put_uint16, uint16}
use nps_socks.File.Obj.{Tunnel, MultiAccount}

-- A buffer of `n` zero bytes after a read into it.
abbrev pub filled : ℕ → Text → Text
filled n s = s ++ replicate (n - length s) 0

-- What becomes of the connection: it is closed, left open with nobody to serve it, or handed to a
-- tunnel or a UDP relay with the address that was asked for.
pub data Outcome : Type 0 where
  hung_up left_open : Outcome
  tunnel : Text → ℕ → Outcome
  udp_relay : Text → ℕ → Outcome

-- Whether a name and a password are an account; `refused` ends with no answer to the client.
pub data Verdict : Type 0 where
  right wrong refused : Verdict

abbrev pub account : Text → List (Text × Text) → Option Text
account u [] = none
account u ((v, p) ∷ m) = if v == u then some p else account u m

abbrev pub compare_password : Text → Option Text → Verdict
compare_password pass none = refused
compare_password pass (some p) = if pass == p then right else wrong

unfoldable pub check : Tunnel → Text → Text → Verdict
check task user pass = elim task.multi_account [
  | some m ↦ if user == [] then refused else compare_password pass (account user m.account_map)
  | none ↦ if user == task.client.cnf.u && pass == task.client.cnf.p then right else wrong
]

abbrev pub has_accounts : Option MultiAccount → Bool
has_accounts none = false
has_accounts (some m) = ltb 0 (length m.account_map)

unfoldable pub requires_auth : Tunnel → Bool
requires_auth task =
    not (task.client.cnf.u == []) && not (task.client.cnf.p == [])
    || has_accounts task.multi_account

-- The answer to a name and a password, and whether they were right.
abbrev pub answer : Verdict → Text × Bool
answer right = (1 ∷ 0 ∷ [], true)
answer wrong = (1 ∷ 1 ∷ [], false)
answer refused = ([], false)

abbrev pub auth_pass : Tunnel → Text → Chunks × Option Text → Chunks × Text × Bool
auth_pass task user (cs, none) = (cs, [], false)
auth_pass task user (cs, some pass) = let (out, ok) = answer (check task user pass) in (cs, out, ok)

-- `c.Read(header[:1])`, where `header[0]` holds the version before
abbrev pub auth_user : Tunnel → Chunks × Option Text → Chunks × Text × Bool
auth_user task (cs, none) = (cs, [], false)
auth_user task (cs, some user) =
    let (cs', s, failed) = read 1 cs in
    if failed then (cs', [], false) else auth_pass task user (read_full (get_or s 0 1) cs')

abbrev pub auth_header : Tunnel → Chunks × Option Text → Chunks × Text × Bool
auth_header task (cs, some (version ∷ user_len ∷ rest)) =
    if version == 1 then auth_user task (read_full user_len cs) else (cs, [], false)
auth_header task (cs, o) = (cs, [], false)

-- What is left of the input, what was written, and whether the client may go on.
unfoldable pub auth : Tunnel → Chunks → Chunks × Text × Bool
unfolding read read_full check
auth task cs = auth_header task (read_full 2 cs)

-- The address and port of the listener's side, for replies; `show` is net.IP's String.
module _ (local_ip : Text) (local_port : ℕ) (show : Text → Text) where
  unfoldable pub send_reply : ℕ → Text
  send_reply rep = 5 ∷ rep ∷ 0 ∷ 1 ∷ (local_ip ++ put_uint16 local_port)

  abbrev pub port_of : Option Text → ℕ
  port_of none = 0
  port_of (some b) = elim (uint16 b) [ none ↦ 0 | some n ↦ n ]

  -- The port behind the host.
  abbrev pub with_port : Text → Chunks → Text × ℕ
  with_port host cs = (host, port_of (read_full 2 cs).1)

  -- An address of `n` bytes.
  abbrev pub read_host : (Text → Text) → ℕ → Chunks → Text × ℕ
  read_host f n cs = let (cs', s, failed) = read n cs in with_port (f (filled n s)) cs'

  abbrev pub read_domain : Chunks × Option Text → Text × ℕ
  read_domain (cs, none) = read_host (λ h. h) 0 cs
  read_domain (cs, some b) = read_host (λ h. h) (get_or b 0 0) cs

  -- The address that doConnect and handleUDP read; `none` is an unknown type.
  unfoldable pub read_address : Chunks → Option (Text × ℕ)
  unfolding read read_full
  read_address cs =
      let (cs', s, failed) = read 1 cs in
      let type = get_or (filled 1 s) 0 0 in
      if type == 1
      then some (read_host show 4 cs')
      else if type == 4
      then some (read_host show 16 cs')
      else if type == 3
      then some (read_domain (read_full 1 cs'))
      else none

  unfoldable pub do_connect : Chunks → Text × Outcome
  unfolding read_address send_reply
  do_connect cs = elim (read_address cs) [
    | none ↦ (send_reply 8, left_open)
    | some (host, port) ↦ ([], tunnel host port)
  ]

  unfoldable pub handle_udp : Chunks → Text × Outcome
  unfolding read_address send_reply
  handle_udp cs = elim (read_address cs) [
    | none ↦ (send_reply 8, hung_up)
    | some (host, port) ↦ ([], udp_relay host port)
  ]

  abbrev pub dispatch : Chunks → Option Text → Text × Outcome
  dispatch cs none = ([], hung_up)
  dispatch cs (some header) =
      let cmd = get_or header 1 0 in
      if cmd == 1
      then do_connect cs
      else if cmd == 2
      then ([], left_open)
      else if cmd == 3
      then handle_udp cs
      else (send_reply 7, hung_up)

  unfoldable pub handle_request : Chunks → Text × Outcome
  unfolding do_connect handle_udp send_reply read_full
  handle_request cs = let (cs', header) = read_full 3 cs in dispatch cs' header

  -- What was written before, and then the request.
  abbrev pub request_after : Text → Chunks → Text × Outcome
  request_after out cs = let (out', end) = handle_request cs in (out ++ out', end)

  abbrev pub after_auth : Chunks × Text × Bool → Text × Outcome
  after_auth (cs, out, ok) = if ok then request_after (5 ∷ 2 ∷ out) cs else (5 ∷ 2 ∷ out, hung_up)

  abbrev pub after_methods : Tunnel → Chunks → Text × Outcome
  after_methods task cs =
      if requires_auth task then after_auth (auth task cs) else request_after (5 ∷ 0 ∷ []) cs

  abbrev pub greet : Tunnel → Chunks × Option Text → Text × Outcome
  greet task (cs, some (version ∷ n_methods ∷ rest)) =
      if version == 5
      then (let (cs', methods, failed) = read n_methods cs in
          if failed || not (length methods == n_methods)
          then ([], hung_up)
          else after_methods task cs')
      else ([], hung_up)
  greet task (cs, o) = ([], hung_up)

  -- What is written to the client until the connection is handed on, and what becomes of it.
  unfoldable pub handle_conn : Tunnel → Chunks → Text × Outcome
  unfolding read read_full auth handle_request requires_auth
  handle_conn task cs = greet task (read_full 2 cs)
