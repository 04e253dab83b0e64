-- ===== src/Check.antt =====
-- internal/cli/commands_ext.go, cmdCheck: the warnings on the stored rules. The warnings on the kernel,
-- which ask the backend, are left out. Whether the session runs under ssh is an argument.
pub mod Packets
pub mod Prefixes
pub mod Shadows
use better_firewall.Prelude.{
  ℕ, suc, ◌+◌, Bool, true, false, not, ◌&&◌, ◌||◌, List, [], ◌∷◌, ◌++◌, String, Option, none, some,
  leb, length, ◌==◌, String-eq, Bool-eq, if◌then◌else◌,
}
use better_firewall.Prelude.Int.{ℤ}
use better_firewall.Rule.{Rule, PortRange, AddrSpec, any, expired}
use better_firewall.Net.{NetText, Addr, Prefix, is4, without_zone, contains}
use better_firewall.Store.{State}
use better_firewall.Numbering.{mark_families}

-- `combined`.
unfoldable pub combined : State → List Rule
unfolding mark_families
combined st = (mark_families st).rules4 ++ (mark_families st).rules6

-- The loop of `sshAllowsPort`.
unfoldable pub ssh_port : List PortRange → Bool
ssh_port [] = false
ssh_port (p ∷ ps) =
    (p.proto == "tcp" || p.proto == "any" || p.proto == "") && leb p.lo 22 && leb 22 p.hi
    || ssh_port ps

abbrev pub no_ports : List PortRange → Bool
no_ports [] = true
no_ports (p ∷ ps) = false

-- `sshAllowsPort`.
unfoldable pub ssh_allows_port : Rule → ℤ → Bool
unfolding ssh_port expired
ssh_allows_port r now =
    if r.disabled || expired r now
    then false
    else if not (r.action == "allow") && not (r.action == "limit")
    then false
    else if not (r.direction == "in")
    then false
    else if not (r.proto == "tcp") && not (r.proto == "any") && not (r.proto == "")
    then false
    else no_ports r.dst.ports || ssh_port r.dst.ports

-- `prefixContains`.
unfoldable pub prefix_contains : Prefix → Prefix → Bool
unfolding contains is4
prefix_contains a b =
    if not (is4 a.addr == is4 b.addr) then false else contains b a.addr && leb b.bits a.bits

-- `portProtoCovers`.
unfoldable pub port_proto_covers : String → String → Bool
port_proto_covers pa pb =
    if pa == pb
    then true
    else if pb == "any" || pb == ""
    then pa == "tcp" || pa == "udp" || pa == "any" || pa == ""
    else false

-- The inner loop of `addrSuperset` over the ports.
unfoldable pub port_covered : PortRange → List PortRange → Bool
unfolding port_proto_covers
port_covered pa [] = false
port_covered pa (pb ∷ pbs) =
    port_proto_covers pa.proto pb.proto && leb pb.lo pa.lo && leb pa.hi pb.hi || port_covered pa pbs

-- The outer loop.
unfoldable pub ports_covered : List PortRange → List PortRange → Bool
unfolding port_covered
ports_covered [] pbs = true
ports_covered (pa ∷ pas) pbs = if not (port_covered pa pbs) then false else ports_covered pas pbs

-- `netip.PrefixFrom(ip, ip.BitLen())`, which drops a zone.
abbrev pub whole : Addr → Prefix
whole a = record { addr = without_zone a; bits = if is4 a then 32 else 128 }

module _ (net : NetText) where
  -- `toPrefix`.
  unfoldable pub to_prefix : String → Option Prefix
  unfolding without_zone is4
  to_prefix s = elim (net.parse_prefix s) [
    | some p ↦ some p
    | none ↦ elim (net.parse_addr s) [ none ↦ none | some a ↦ some (whole a) ]
  ]

  -- The test of `addrSuperset` on two addresses that are not for any.
  unfoldable pub address_covered : String → String → Bool
  unfolding to_prefix prefix_contains
  address_covered a b = elim (to_prefix a) [
    | none ↦ false
    | some pa ↦ elim (to_prefix b) [ none ↦ false | some pb ↦ prefix_contains pa pb ]
  ]

  -- `addrSuperset`.
  unfoldable pub addr_superset : AddrSpec → AddrSpec → Bool
  unfolding address_covered ports_covered any
  addr_superset a b =
      if not (b.set == "") || not (a.set == "")
      then a.set == b.set
      else if not (any b) && (any a || not (address_covered a.ip b.ip))
      then false
      else if no_ports b.ports
      then true
      else if no_ports a.ports
      then false
      else ports_covered a.ports b.ports

  -- `ruleSuperset`.
  unfoldable pub rule_superset : Rule → Rule → Bool
  unfolding addr_superset
  rule_superset a b =
      if not (a.v6 == b.v6)
      then false
      else if not (a.direction == b.direction)
      then false
      else if not (b.iface_in == "") && not (b.iface_in == a.iface_in)
      then false
      else if not (b.iface_out == "") && not (b.iface_out == a.iface_out)
      then false
      else if not (b.proto == "") && not (b.proto == "any") && not (b.proto == a.proto)
      then false
      else if not (b.icmp_type == "") && not (b.icmp_type == a.icmp_type)
      then false
      else if not (b.dapp == "") && not (b.dapp == a.dapp)
      then false
      else if not (b.sapp == "") && not (b.sapp == a.sapp)
      then false
      else addr_superset a.src b.src && addr_superset a.dst b.dst

  -- The inner loop of `cmdCheck`: the index of the first rule that shadows `rj`.
  unfoldable pub find_shadow : ℤ → Rule → ℕ → List Rule → Option ℕ
  unfolding rule_superset expired
  find_shadow now rj i [] = none
  find_shadow now rj i (ri ∷ rs) =
      let rest = find_shadow now rj (suc i) rs in
      if ri.disabled || expired ri now then rest else if rule_superset rj ri then some i else rest

-- The warnings carry the numbers that they print, from 1.
pub data Warning : Type 0 where
  ssh_lockout : String → Warning
  rule_expired : ℕ → Warning
  rule_shadowed : ℕ → ℕ → Warning

abbrev pub shadow_warning : ℕ → Option ℕ → List Warning
shadow_warning j none = []
shadow_warning j (some i) = rule_shadowed (suc j) (suc i) ∷ []

module _ (net : NetText) (now : ℤ) where
  -- One round of the outer loop, on the rules before the j-th and that rule.
  unfoldable pub check_rule : List Rule → Rule → List Warning
  unfolding find_shadow
  check_rule earlier rj =
      let j = length earlier in
      (if expired rj now then rule_expired (suc j) ∷ [] else [])
      ++ (if rj.disabled then [] else shadow_warning j (find_shadow net now rj 0 earlier))

  unfoldable pub check_from : List Rule → List Rule → List Warning
  unfolding check_rule
  check_from earlier [] = []
  check_from earlier (rj ∷ rs) = check_rule earlier rj ++ check_from (earlier ++ rj ∷ []) rs

  unfoldable pub any_ssh : List Rule → Bool
  unfolding ssh_allows_port
  any_ssh [] = false
  any_ssh (r ∷ rs) = ssh_allows_port r now || any_ssh rs

  -- The parts (a), (b) and (c) of `cmdCheck`.
  unfoldable pub cmd_check : Bool → State → List Warning
  unfolding combined check_from any_ssh
  cmd_check under_ssh st =
      let lockout = st.policies.input == "deny" || st.policies.input == "reject" || st.panic in
      (if under_ssh && lockout && not (any_ssh (combined st))
        then ssh_lockout st.policies.input ∷ []
        else [])
      ++ check_from [] (combined st)
