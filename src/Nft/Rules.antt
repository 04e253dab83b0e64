-- ===== src/Nft/Rules.antt =====
-- internal/backend/nft/compile.go: what one rule of the firewall compiles to.
use better_firewall.Prelude.{
  ℕ, suc, ◌+◌, Bool, true, false, not, ◌&&◌, ◌||◌, List, [], ◌∷◌, ◌++◌, String, Option, none, some,
  ◌==◌, ℕ-eq, String-eq, if◌then◌else◌, keep, ◌<>◌, decimal,
}
use better_firewall.Prelude.Result.{Result, ok, err}
use better_firewall.Rule.{PortRange, Rule}
use better_firewall.Rule.Icmp.{icmp_type_number, parse_uint}
use better_firewall.Nft.Expr.{
  Expr, bytes, cmp_eq, range, set_lookup, NftSet, SetElement, inet_service,
}
use better_firewall.Nft.Match.{l4proto, proto_num, port_payload, port_data, icmp_type}
use better_firewall.Nft.Compiled.{
  Compiled, CompileError, icmp_type_without_icmp, unknown_proto, unknown_icmp_type, new_set_id,
  add_set,
}

-- `userChainFor`, `userLoggingChainFor`.
unfoldable pub user_chain_for : String → String
user_chain_for dir =
    if dir == "out"
    then "bfw-user-output"
    else if dir == "routed"
    then "bfw-user-forward"
    else "bfw-user-input"

unfoldable pub user_logging_chain_for : String → String
user_logging_chain_for dir =
    if dir == "out"
    then "bfw-user-logging-output"
    else if dir == "routed"
    then "bfw-user-logging-forward"
    else "bfw-user-logging-input"

-- The two flags of `protoVariants` behind a list of ports.
unfoldable pub seen_protos : List PortRange → Bool × Bool → Bool × Bool
seen_protos [] seen = seen
seen_protos (p ∷ ps) (tcp, udp) = seen_protos ps (
    if p.proto == "tcp"
    then (true, udp)
    else if p.proto == "udp"
    then (tcp, true)
    else (true, true))

abbrev pub variants_of : Bool × Bool → List String
variants_of (true, true) = "tcp" ∷ "udp" ∷ []
variants_of (true, false) = "tcp" ∷ []
variants_of (false, true) = "udp" ∷ []
variants_of (false, false) = "any" ∷ []

-- `protoVariants`.
unfoldable pub proto_variants : Rule → List String
unfolding seen_protos
proto_variants r =
    if not (r.proto == "any") && not (r.proto == "")
    then r.proto ∷ []
    else variants_of (seen_protos r.dst.ports (seen_protos r.src.ports (false, false)))

-- `portIntervalElems`: the end behind 65535 is written as 0.
unfoldable pub port_interval_elems : ℕ → ℕ → List SetElement
unfolding port_data
port_interval_elems lo hi =
    record { key = port_data lo; interval_end = false }
    ∷ record { key = port_data (if hi == 65535 then 0 else hi + 1); interval_end = true }
    ∷ []

-- The test of the three loops of `appendPortExprs`.
unfoldable pub applies : String → PortRange → Bool
applies proto p = p.proto == "" || p.proto == "any" || p.proto == proto

unfoldable pub multi : PortRange → Bool
multi p = not (p.hi == p.lo)

unfoldable pub any_multi : List PortRange → Bool
unfolding multi
any_multi [] = false
any_multi (p ∷ ps) = multi p || any_multi ps

-- The elements of the anonymous set, for the ports that apply.
unfoldable pub port_elements : Bool → List PortRange → List SetElement
unfolding port_interval_elems port_data
port_elements interval [] = []
port_elements interval (p ∷ ps) =
    (if interval
      then port_interval_elems p.lo p.hi
      else record { key = port_data p.lo; interval_end = false } ∷ [])
    ++ port_elements interval ps

abbrev pub port_set : ℕ → Bool → NftSet
port_set id interval = record {
  name = "__set" <> decimal id;
  id = id;
  key_type = inet_service;
  interval = interval;
  anonymous = true;
  constant = true;
  dynamic = false;
  timeout = 0;
  size = 0;
}

-- `appendPortExprs` behind its first loop, which counts the ports that apply.
unfoldable pub port_exprs : List PortRange → String → Compiled → List Expr × Compiled
unfolding port_elements any_multi port_data port_payload
port_exprs [] which c = ([], c)
port_exprs (p ∷ []) which c =
    if p.lo == p.hi
    then (port_payload which ∷ cmp_eq (bytes (port_data p.lo)) ∷ [], c)
    else (port_payload which ∷ range (port_data p.lo) (port_data p.hi) ∷ [], c)
port_exprs (p ∷ q ∷ ps) which c =
    let id = suc c.set_id in
    let set = port_set id (any_multi (p ∷ q ∷ ps)) in
    (
      port_payload which ∷ set_lookup set.name id ∷ [],
      add_set set (port_elements (any_multi (p ∷ q ∷ ps)) (p ∷ q ∷ ps)) (new_set_id c),
    )

-- `appendPortExprs`.
unfoldable pub append_port_exprs :
    List PortRange → String → String → Compiled → List Expr × Compiled
unfolding port_exprs applies
append_port_exprs ports which proto c = port_exprs (keep (applies proto) ports) which c

abbrev pub is_port_proto : String → Bool
is_port_proto proto = proto == "tcp" || proto == "udp"

abbrev pub is_icmp : String → Bool
is_icmp proto = proto == "icmp" || proto == "icmpv6"

abbrev pub no_ports : List PortRange → Bool
no_ports [] = true
no_ports (p ∷ ps) = false

-- The part of `ruleMatch` for the protocol.
unfoldable pub proto_exprs : Rule → String → Result CompileError (List Expr)
proto_exprs r proto = if proto == "any" then ok [] else elim (proto_num proto) [
  | none ↦ err (unknown_proto r.id proto)
  | some num ↦ ok (l4proto num)
]

abbrev pub or_zero : Option ℕ → ℕ
or_zero none = 0
or_zero (some n) = n

-- The part of `ruleMatch` for the ICMP type.
unfoldable pub icmp_exprs : Rule → String → Result CompileError (List Expr)
unfolding icmp_type_number icmp_type parse_uint
icmp_exprs r proto =
    if r.icmp_type == ""
    then ok []
    else if not (is_icmp proto)
    then err (icmp_type_without_icmp r.id)
    else elim (icmp_type_number proto r.icmp_type) [
      | none ↦ err (unknown_icmp_type r.id r.icmp_type)
      | some typ ↦ ok (icmp_type (or_zero (parse_uint 8 typ)))
    ]
