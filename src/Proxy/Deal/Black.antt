-- ===== src/Proxy/Deal/Black.antt =====
-- server/proxy/base.go, tcp.go and udp.go: what the black lists keep out, and what counts connections.
use nps_socks.Proxy.Deal.{black, new_link, served_of, deal_client, udp_start}
use nps_socks.Common.BlackList.Sorted.{in_list-in_str_arr, in_str_arr-sort}
use nps_socks.Common.BlackList.{in_list, is_black_ip, is_global_black_ip}
use nps_socks.Common.Addr.{get_ip_by_addr}
use nps_socks.Common.Arrays.{in_str_arr}
use nps_socks.Bridge.{Bridge, send_link_info}
use nps_socks.File.Obj.{Client, Glob, Tunnel}
use nps_socks.Prelude.{
  Text, Bool, Option, ℤ, ℕ, List, All, none, some, true, false, ◌≡◌, ◌||◌, ◌++◌, ◌∷◌, [], refl,
  if◌then◌else◌, arith,
}

abbrev pub in_global : Text → Option Glob → Bool
in_global ip none = false
in_global ip (some g) = in_str_arr g.black_ip_list ip

-- The address is on one of the two black lists.
abbrev pub listed : Option Glob → List Text → Text → Bool
listed global black_ip_list addr =
    in_global (get_ip_by_addr addr) global || in_str_arr black_ip_list (get_ip_by_addr addr)

pub is_black_ip-in_str_arr :
    (addr : Text) (l : List Text) → (is_black_ip addr l).1 ≡ in_str_arr l (get_ip_by_addr addr)
unfolding is_black_ip
is_black_ip-in_str_arr addr l = in_list-in_str_arr (get_ip_by_addr addr) l

pub is_global_black_ip-in_global :
    (addr : Text) (g : Option Glob)
    → (is_global_black_ip addr g).1 ≡ in_global (get_ip_by_addr addr) g
unfolding is_global_black_ip
is_global_black_ip-in_global addr none = refl
is_global_black_ip-in_global addr (some g) =
    in_list-in_str_arr (get_ip_by_addr addr) g.black_ip_list

module _ (new_conn sends : ℕ → Bool) (now : ℤ) (s : Bridge) where
  -- A connection is refused as black-listed exactly when its address is on the global black list or on
  -- that of the client; any other gets what SendLinkInfo gives for a link with its address and the settings
  -- of the client, which is a connection to the client or an error, upon which it is closed too.
  pub deal_client-listed :
      (remote addr tp : Text) (local_proxy : Bool) (t : Option Tunnel) (global : Option Glob)
      (client : Client)
      → (deal_client new_conn sends now s remote addr tp local_proxy t global client).served ≡ (
          if listed global client.black_ip_list remote
          then black
          else (let link = new_link tp addr client remote local_proxy in
              served_of link (send_link_info new_conn sends now client.id link t s)))
  unfolding deal_client
  deal_client-listed remote addr tp local_proxy t global client = ground (
    arith,
    is_black_ip-in_str_arr remote client.black_ip_list,
    is_global_black_ip-in_global remote global,
  )

-- The lists that a test leaves sorted have the same entries.
pub in_global-same :
    (addr ip : Text) (g : Option Glob) → in_global ip (is_global_black_ip addr g).0 ≡ in_global ip g
unfolding is_global_black_ip in_list
in_global-same addr ip none = refl
in_global-same addr ip (some g) = in_str_arr-sort ip g.black_ip_list

is_black_ip-same :
    (addr ip : Text) (l : List Text) → in_str_arr (is_black_ip addr l).0 ip ≡ in_str_arr l ip
unfolding is_black_ip in_list
is_black_ip-same addr ip l = in_str_arr-sort ip l

-- None of the datagrams is from a listed address.
abbrev pub IsClean : Option Glob → List Text → List (Text × Text) → Type 0
IsClean global l = All (λ d. listed global l d.0 ≡ false)

IsClean-same :
    (global global' : Option Glob) (l l' : List Text) (ds : List (Text × Text))
    → ((ip : Text) → in_global ip global' ≡ in_global ip global)
    → ((ip : Text) → in_str_arr l' ip ≡ in_str_arr l ip)
    → IsClean global l ds
    → IsClean global' l' ds
IsClean-same global global' l l' [] h g c = tt
IsClean-same global global' l l' (d ∷ ds) h g c = (
  ground (arith, h (get_ip_by_addr d.0), g (get_ip_by_addr d.0), c.0),
  IsClean-same global global' l l' ds h g c.1,
)

-- One datagram from an address of the global black list, or of that of the client, ends the UDP service of
-- a tunnel: what came before it is handed on, in order, and nothing that comes after it is, whoever sends it.
pub udp_start-append :
    (global : Option Glob) (l : List Text) (before after : List (Text × Text)) (addr body : Text)
    → IsClean global l before
    → listed global l addr ≡ true
    → udp_start global l (before ++ (addr, body) ∷ after) ≡ before
unfolding udp_start
udp_start-append global l [] after addr body clean bad =
    ground (arith, is_black_ip-in_str_arr addr l, is_global_black_ip-in_global addr global)
udp_start-append global l (d ∷ before) after addr body clean bad =
    let global' = (is_global_black_ip d.0 global).0 in
    let l' = (is_black_ip d.0 l).0 in
    let ih =
      udp_start-append global' l' before after addr body
        (IsClean-same global global' l l' before (λ ip. in_global-same d.0 ip global)
          (λ ip. is_black_ip-same d.0 ip l) clean.1)
        (ground (
          arith,
          bad,
          in_global-same d.0 (get_ip_by_addr addr) global,
          is_black_ip-same d.0 (get_ip_by_addr addr) l,
        )) in
    ground
      (arith, ih, clean.0, is_black_ip-in_str_arr d.0 l, is_global_black_ip-in_global d.0 global)
