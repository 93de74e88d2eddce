-- ===== src/Proxy/Http/Admitted.antt =====
-- server/proxy/http.go: which requests reach a client.
use nps_socks.Proxy.Http.{
  HttpRequest, Handling, Handled, served, handle_http, found, with_flow, checked, counted,
  with_target, is_authorized, no_host, unauthorized,
}
use nps_socks.Proxy.Deal.{Served, linked, served_of, black, new_link}
use nps_socks.Proxy.Deal.Black.{
  listed, in_global, is_global_black_ip-in_global, is_black_ip-in_str_arr,
}
use nps_socks.Proxy.{Denied, check_flow_and_conn_num, exceeds}
use nps_socks.Bridge
use nps_socks.Bridge.{dialed, opened, Bridge, Link, Sent, send_link_info}
use nps_socks.Common.BlackList.{is_black_ip, is_global_black_ip}
use nps_socks.Common.Addr.{get_ip_by_addr}
use nps_socks.Common.Arrays.{in_str_arr}
use nps_socks.File.Conns.{get_conn, cut_conn}
use nps_socks.File.Hosts.{get_info_by_host}
use nps_socks.File.JsonDb.{JsonDb}
use nps_socks.File.Obj.{Client, Flow, Glob, Host, Target}
use nps_socks.File.Targets.{Pick, picked, all_offline, panic, get_random_target}
use nps_socks.Prelude.{
  Text, Bool, Option, ℤ, ℕ, none, some, true, false, ◌≡◌, refl, sym, ◌∙◌, ap, arith, Bool-cases,
  Option-cases, inl, inr, codes, subst,
}

-- What the checks of a client let through is the client but for its count.
record IsCounted (f : Flow) (c c' : Client) : Type 0 where
  ids : c'.id ≡ c.id
  lists : c'.black_ip_list ≡ c.black_ip_list
  cnfs : c'.cnf ≡ c.cnf
  within : exceeds f.flow_limit f ≡ false

check_flow-IsCounted :
    (f : Flow) (c c' : Client) → check_flow_and_conn_num f c ≡ (c', none) → IsCounted f c c'
unfolding check_flow_and_conn_num get_conn cut_conn
check_flow-IsCounted f c c' e = record {
  ids = ground (arith, e);
  lists = ground (arith, e);
  cnfs = ground (arith, e);
  within = ground (arith, e);
}

abbrev served_part : Handled → Served
served_part (served x) = x
served_part no_host = black
served_part unauthorized = black

served_of-link : (l link : Link) (x sent : Sent) → served_of l x ≡ linked link sent → l ≡ link
served_of-link l link Bridge.not_in_list sent e = absurd (ground (arith, e))
served_of-link l link Bridge.expired sent e = absurd (ground (arith, e))
served_of-link l link Bridge.no_tunnel sent e = absurd (ground (arith, e))
served_of-link l link Bridge.no_conn sent e = absurd (ground (arith, e))
served_of-link l link Bridge.not_sent sent e = absurd (ground (arith, e))
served_of-link l link Bridge.not_connected sent e = absurd (ground (arith, e))
served_of-link l link (dialed a) sent e = ground (arith, e)
served_of-link l link (opened a b c) sent e = ground (arith, e)

counted-handled : (d : Handling) → (counted d).handled ≡ d.handled
counted-handled d = elim (Option-cases d.to) [ inl e ↦ rw e refl | inr (h, e) ↦ rw e refl ]

module _ (base64 : Text → Option Text) (new_conn sends : ℕ → Bool) (now : ℤ) (s : Bridge) where
  -- What holds of a request when a link is made for it.
  pub record IsAdmitted (remote : Text) (r : HttpRequest) (global : Option Glob) (db : JsonDb)
      (link : Link) (sent : Sent) : Type 0 where
    h : Host
    f : Flow
    route : (get_info_by_host r.host r.scheme r.uri db).1 ≡ some h
    flows : h.client.flow ≡ some f
    within : exceeds f.flow_limit f ≡ false
    authorized : is_authorized base64 r h.client.cnf ≡ true
    allowed : listed global h.client.black_ip_list remote ≡ false
    goes :
        served_of link (send_link_info new_conn sends now h.client.id link none s)
        ≡ linked link sent

  -- What was tested and done for the target of a host.
  with_target-linked :
      (remote : Text) (r : HttpRequest) (global : Option Glob) (h : Host) (p : Target × Pick)
      (link : Link) (sent : Sent)
      → (with_target base64 new_conn sends now s remote r global h p).handled
        ≡ served (linked link sent)
      → (in_str_arr h.client.black_ip_list (get_ip_by_addr remote) ≡ false)
        × (served_of link (send_link_info new_conn sends now h.client.id link none s)
            ≡ linked link sent)
  with_target-linked remote r global h (t, all_offline) link sent e = absurd (ground (arith, e))
  with_target-linked remote r global h (t, panic) link sent e = absurd (ground (arith, e))
  with_target-linked remote r global h (t, picked addr) link sent e =
      let same = is_black_ip-in_str_arr remote h.client.black_ip_list in
      elim (Bool-cases (is_black_ip remote h.client.black_ip_list).1) [
        | inl on_it ↦ absurd (ground (arith, rw on_it at e))
        | inr fine ↦
            let l = new_link (codes "http") addr h.client r.remote_addr t.local_proxy in
            let goes = ap served_part (rw fine at e) in
            (
              sym same ∙ fine,
              subst
                  (λ x.
                    served_of x (send_link_info new_conn sends now h.client.id x none s)
                    ≡ linked link sent)
                  (served_of-link l link (send_link_info new_conn sends now h.client.id l none s)
                    sent goes)
                  goes,
            )
      ]

  -- What holds of a client whose connection count is held.
  abbrev Admits : Text → HttpRequest → Link → Sent → Client → Type 0
  Admits remote r link sent c =
      (is_authorized base64 r c.cnf ≡ true)
      × (in_str_arr c.black_ip_list (get_ip_by_addr remote) ≡ false)
      × (served_of link (send_link_info new_conn sends now c.id link none s) ≡ linked link sent)

  checked-Admits :
      (remote : Text) (r : HttpRequest) (global : Option Glob) (h : Host) (c : Client)
      (o : Option Denied) (link : Link) (sent : Sent)
      → (checked base64 new_conn sends now s remote r global h (c, o)).handled
        ≡ served (linked link sent)
      → (o ≡ none) × Admits remote r link sent c
  checked-Admits remote r global h c (some why) link sent e = absurd (ground (arith, e))
  checked-Admits remote r global h c none link sent e =
      elim (Bool-cases (is_authorized base64 r c.cnf)) [
        | inl able ↦
            let made =
              with_target base64 new_conn sends now s remote r global (record h { client = c })
                (get_random_target h.target) in
            let (fine, goes) =
              with_target-linked remote r global (record h { client = c })
                (get_random_target h.target) link sent
                (sym (counted-handled made) ∙ rw able at e) in
            (refl, (able, fine, goes))
        | inr unable ↦ absurd (ground (arith, rw unable at e))
      ]

  with_flow-IsAdmitted :
      (remote : Text) (r : HttpRequest) (global g : Option Glob) (db : JsonDb) (h : Host)
      (o : Option Flow) (link : Link) (sent : Sent)
      → (get_info_by_host r.host r.scheme r.uri db).1 ≡ some h
      → h.client.flow ≡ o
      → in_global (get_ip_by_addr remote) global ≡ false
      → (with_flow base64 new_conn sends now s remote r g h o).handled ≡ served (linked link sent)
      → IsAdmitted remote r global db link sent
  with_flow-IsAdmitted remote r global g db h none link sent route at out e =
      absurd (ground (arith, e))
  with_flow-IsAdmitted remote r global g db h (some f) link sent route at out e =
      let p = check_flow_and_conn_num f h.client in
      let (let_in, (able, fine, goes)) = checked-Admits remote r g h p.0 p.1 link sent e in
      let k = check_flow-IsCounted f h.client p.0 (ap (λ x. (p.0, x)) let_in) in
      record {
        h = h;
        f = f;
        route = route;
        flows = at;
        within = k.within;
        authorized = subst (λ x. is_authorized base64 r x ≡ true) k.cnfs able;
        allowed =
            let off = subst (λ l. in_str_arr l (get_ip_by_addr remote) ≡ false) k.lists fine in
            rw (out, off) refl;
        goes =
            subst
              (λ i.
                served_of link (send_link_info new_conn sends now i link none s) ≡ linked link sent)
              k.ids goes;
      }

  found-IsAdmitted :
      (remote : Text) (r : HttpRequest) (global g : Option Glob) (db : JsonDb) (o : Option Host)
      (link : Link) (sent : Sent)
      → (get_info_by_host r.host r.scheme r.uri db).1 ≡ o
      → in_global (get_ip_by_addr remote) global ≡ false
      → (found base64 new_conn sends now s remote r g o).handled ≡ served (linked link sent)
      → IsAdmitted remote r global db link sent
  found-IsAdmitted remote r global g db none link sent route out e = absurd (ground (arith, e))
  found-IsAdmitted remote r global g db (some h) link sent route out e =
      with_flow-IsAdmitted remote r global g db h h.client.flow link sent route refl out e

  -- When a link is made for a request, then its address is on no black list, its host is the one that the
  -- routes give, the flow of the host's client is within its limit, the request has the user and the
  -- password of the client if it has any, and the link is what SendLinkInfo gives for that client.
  pub handle_http-IsAdmitted :
      (remote : Text) (r : HttpRequest) (global : Option Glob) (db : JsonDb) (link : Link)
      (sent : Sent)
      → (handle_http base64 new_conn sends now s remote r global db).handled
        ≡ served (linked link sent)
      → IsAdmitted remote r global db link sent
  unfolding handle_http
  handle_http-IsAdmitted remote r global db link sent e =
      let same = is_global_black_ip-in_global remote global in
      elim (Bool-cases (is_global_black_ip remote global).1) [
        | inl on_it ↦ absurd (ground (arith, rw on_it at e))
        | inr fine ↦
            found-IsAdmitted remote r global (is_global_black_ip remote global).0 db
              (get_info_by_host r.host r.scheme r.uri db).1 link sent refl (sym same ∙ fine)
              (rw fine at e)
      ]
