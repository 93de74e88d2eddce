-- ===== src/Common/Addr.antt =====
-- lib/common/util.go: the host and the port of an address `host:port` or `[host]:port`.
use nps_socks.Prelude.{
  ◌+◌, ◌-◌, Bool, ◌&&◌, none, some, [], ◌++◌, ℤ, pos, Text, codes, has_prefix, contains, count,
  split, last_index, take, drop, length, get_or, ltb, if◌then◌else◌,
}
use nps_socks.Strconv.{Parsed, good, bad_syntax, out_of_range, atoi}

abbrev bracketed : Text → Bool
bracketed addr = has_prefix addr (codes "[") && contains addr (codes "]:")

abbrev several_colons : Text → Bool
several_colons addr = ltb 1 (count b':' addr)

-- `strings.Split(addr, ":")[0]`
abbrev first_part : Text → Text
first_part addr = get_or (split b':' addr) 0 []

unfoldable pub get_ip_by_addr : Text → Text
get_ip_by_addr addr =
    if bracketed addr
    then elim (last_index b']' addr) [ some i ↦ drop 1 (take i addr) | none ↦ first_part addr ]
    else if contains addr (codes ":")
    then elim (last_index b':' addr) [
      | some i ↦ if several_colons addr then take i addr else first_part addr
      | none ↦ first_part addr
    ]
    else first_part addr

-- strconv.Atoi, with 0 for an error
abbrev no_err : Parsed → ℤ
no_err (good n) = n
no_err bad_syntax = pos 0
no_err (out_of_range n) = pos 0

abbrev port_part : Text → ℤ
port_part addr =
    let parts = split b':' addr in
    if ltb (length parts) 2 then pos 0 else no_err (atoi (get_or parts (length parts - 1) []))

-- `addr[strings.LastIndex(addr, ":")+1:]`
abbrev after_colon : Text → Text
after_colon addr = elim (last_index b':' addr) [ some i ↦ drop (i + 1) addr | none ↦ addr ]

unfoldable pub get_port_by_addr : Text → ℤ
get_port_by_addr addr =
    if bracketed addr
    then no_err (atoi (after_colon addr))
    else if contains addr (codes ":") && several_colons addr
    then no_err (atoi (after_colon addr))
    else port_part addr

unfoldable pub format_address : Text → Text
format_address s = if contains s (codes ":") then s else codes "127.0.0.1:" ++ s
