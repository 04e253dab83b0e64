-- ===== src/Rule/Keys.antt =====
-- internal/rule/rule.go: the texts that identify a rule (`TupleKey`) and a group of rules expanded
-- from one application profile (`AppTuple`).
pub mod Laws
use better_firewall.Prelude.{
  Bool, true, false, not, ◌&&◌, ◌||◌, List, [], ◌∷◌, String, ◌==◌, ℕ-eq, String-eq, if◌then◌else◌,
  ◌<>◌, decimal,
}
use better_firewall.Rule.{PortRange, AddrSpec, Rule, forward, tuple_dir}

unfoldable pub write_bool : Bool → String
write_bool value = if value then "true" else "false"

pub proto_suffix : String → String
proto_suffix proto = if not (proto == "") && not (proto == "any") then "/" <> proto else ""

pub port_key : PortRange → String
port_key p =
    decimal p.lo <> (if not (p.hi == p.lo) then ":" <> decimal p.hi else "") <> proto_suffix p.proto

-- The loop over the ports; `first` is `i == 0`.
pub write_ports : Bool → List PortRange → String
write_ports first [] = ""
write_ports first (p ∷ ps) = (if first then "" else ",") <> port_key p <> write_ports false ps

pub write_addr_key : AddrSpec → String
write_addr_key a = a.ip <> "/" <> a.set <> "{" <> write_ports true a.ports <> "}"

pub tuple_key : Rule → String
tuple_key r =
    "dir="
    <> tuple_dir r
    <> " fwd="
    <> write_bool (forward r)
    <> " proto="
    <> r.proto
    <> " icmp_type="
    <> r.icmp_type
    <> " ifin="
    <> r.iface_in
    <> " ifout="
    <> r.iface_out
    <> " v6="
    <> write_bool r.v6
    <> "\n"
    <> "src="
    <> write_addr_key r.src
    <> "|"
    <> write_addr_key r.dst
    <> " dapp="
    <> r.dapp
    <> " sapp="
    <> r.sapp
    <> "\n"

unfoldable pub canon_wild : String → Bool → String
canon_wild ip v6 = if ip == "any" || ip == "" then (if v6 then "::/0" else "0.0.0.0/0") else ip

unfoldable pub write_port_list : List PortRange → String
unfolding write_ports
write_port_list [] = "any"
write_port_list (p ∷ ps) = write_ports true (p ∷ ps)

unfoldable pub app_tuple : Rule → String
app_tuple r =
    if r.dapp == "" && r.sapp == ""
    then ""
    else (if not (r.dapp == "") then r.dapp else write_port_list r.dst.ports)
      <> " "
      <> canon_wild r.dst.ip r.v6
      <> " "
      <> (if not (r.sapp == "") then r.sapp else write_port_list r.src.ports)
      <> " "
      <> canon_wild r.src.ip r.v6
      <> (if r.iface_in == "" && r.iface_out == ""
          then " " <> r.direction
          else (if not (r.iface_in == "") then " in_" <> r.iface_in else "")
            <> (if not (r.iface_out == "") then " out_" <> r.iface_out else ""))
