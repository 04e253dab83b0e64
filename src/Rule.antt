-- ===== src/Rule.antt =====
-- internal/rule/rule.go: the firewall rule, and how two rules are compared.
pub mod Tuple
pub mod Keys
pub mod Icmp
use better_firewall.Prelude.{
  ℕ, Bool, true, false, not, ◌&&◌, ◌||◌, List, [], ◌∷◌, String, length, ◌==◌, ℕ-eq, String-eq,
  Bool-eq, if◌then◌else◌,
}
use better_firewall.Prelude.Int.{ℤ, pos, negsuc, ltb_ℤ, ℤ_eq}

-- Ports are uint16 in the source; no operation here computes with them.
pub record PortRange : Type 0 where
  pub lo : ℕ
  pub hi : ℕ
  pub proto : String

pub record AddrSpec : Type 0 where
  pub ip : String
  pub ports : List PortRange
  pub set : String

pub record Rule : Type 0 where
  pub id : String
  pub action : String
  pub direction : String
  pub route_dir : String
  pub iface_in : String
  pub iface_out : String
  pub proto : String
  pub icmp_type : String
  pub src : AddrSpec
  pub dst : AddrSpec
  pub dapp : String
  pub sapp : String
  pub log : String
  pub comment : String
  pub expires_at : ℤ
  pub disabled : Bool
  pub v6 : Bool

unfoldable pub any : AddrSpec → Bool
any a = a.ip == "" || a.ip == "any"

unfoldable pub forward : Rule → Bool
forward r = r.direction == "routed"

abbrev pub set_v6 : Rule → Bool → Rule
set_v6 r v6 = record r { v6 = v6 }

-- `Clone` copies the port lists, so that a later write cannot reach the original: the same value.
abbrev pub clone : Rule → Rule
clone r = r

unfoldable pub expired : Rule → ℤ → Bool
expired r now = not (ℤ_eq r.expires_at (pos 0)) && not (ltb_ℤ now r.expires_at)

-- `Match` compares its codes as integers.
pub data MatchCode : Type 0 where
  match_none match_exact match_comment match_action : MatchCode

abbrev pub code : MatchCode → ℤ
code match_none = pos 1
code match_exact = pos 0
code match_comment = negsuc 1
code match_action = negsuc 0

unfoldable pub normalized_port_proto : String → String
normalized_port_proto proto = if proto == "" || proto == "any" then "" else proto

-- The loop over both port lists; it is run on lists of one length.
unfoldable pub same_ports : List PortRange → List PortRange → Bool
same_ports [] bs = true
same_ports (a ∷ as') [] = true
same_ports (a ∷ as') (b ∷ bs) =
    if not (a.lo == b.lo)
      || not (a.hi == b.hi)
      || not (normalized_port_proto a.proto == normalized_port_proto b.proto)
    then false
    else same_ports as' bs

unfoldable pub same_addr_tuple : AddrSpec → AddrSpec → Bool
same_addr_tuple a b =
    if not (a.ip == b.ip) || not (a.set == b.set) || not (length a.ports == length b.ports)
    then false
    else same_ports a.ports b.ports

-- For a routed rule the direction that is compared is `route_dir`, if that is set.
unfoldable pub tuple_dir : Rule → String
tuple_dir r = if forward r && not (r.route_dir == "") then r.route_dir else r.direction

unfoldable pub same_tuple : Rule → Rule → Bool
same_tuple r o =
    if not (tuple_dir r == tuple_dir o)
      || not (forward r == forward o)
      || not (r.proto == o.proto)
      || not (r.icmp_type == o.icmp_type)
      || not (r.iface_in == o.iface_in)
      || not (r.iface_out == o.iface_out)
      || not (r.v6 == o.v6)
      || not (r.dapp == o.dapp)
      || not (r.sapp == o.sapp)
    then false
    else same_addr_tuple r.src o.src && same_addr_tuple r.dst o.dst

unfoldable pub match : Rule → Rule → MatchCode
match r o =
    if not (same_tuple r o)
    then match_none
    else if r.action == o.action && r.log == o.log && r.comment == o.comment
    then match_exact
    else if r.action == o.action && r.log == o.log
    then match_comment
    else match_action
