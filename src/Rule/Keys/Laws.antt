-- ===== src/Rule/Keys/Laws.antt =====
-- internal/rule/rule.go: rules that `sameTuple` identifies have one `TupleKey`.
use text.Mathlib.TextEquality.{eq_iff}
use better_firewall.Prelude.{
  ℕ, Bool, true, false, not, List, [], ◌∷◌, String, ◌==◌, ℕ-eq, String-eq, if◌then◌else◌, ◌<>◌,
  decimal, ◌≡◌, refl, ap, ◌∙◌, sym, arith, map, ◌⊎◌, inl, inr,
}
use better_firewall.Rule.{PortRange, AddrSpec, Rule, normalized_port_proto, same_tuple}
use better_firewall.Rule.Tuple.{Tuple, AddrTuple, port_tuple, addr_tuple, tuple, same_tuple_iff}
use better_firewall.Rule.Keys.{
  proto_suffix, port_key, write_ports, write_addr_key, write_bool, tuple_key,
}

-- The key as a function of the fields that identify a rule.
render_port : ℕ × ℕ × String → String
render_port (lo, hi, proto) =
    decimal lo <> (if not (hi == lo) then ":" <> decimal hi else "") <> proto_suffix proto

render_ports : Bool → List (ℕ × ℕ × String) → String
render_ports first [] = ""
render_ports first (p ∷ ps) = (if first then "" else ",") <> render_port p <> render_ports false ps

render_addr : AddrTuple → String
render_addr a = a.ip <> "/" <> a.set <> "{" <> render_ports true a.ports <> "}"

render : Tuple → String
render t =
    "dir="
    <> t.dir
    <> " fwd="
    <> write_bool t.forward
    <> " proto="
    <> t.proto
    <> " icmp_type="
    <> t.icmp_type
    <> " ifin="
    <> t.iface_in
    <> " ifout="
    <> t.iface_out
    <> " v6="
    <> write_bool t.v6
    <> "\n"
    <> "src="
    <> render_addr t.src
    <> "|"
    <> render_addr t.dst
    <> " dapp="
    <> t.dapp
    <> " sapp="
    <> t.sapp
    <> "\n"

normalized_cases :
    (proto : String)
    → (proto_suffix proto ≡ "") × (normalized_port_proto proto ≡ "")
      ⊎ (normalized_port_proto proto ≡ proto)
unfolding proto_suffix normalized_port_proto
normalized_cases proto = ground (arith, eq_iff proto "", eq_iff proto "any")

proto_suffix-empty : proto_suffix "" ≡ ""
unfolding proto_suffix
proto_suffix-empty = refl

proto_suffix-normalized :
    (proto : String) → proto_suffix (normalized_port_proto proto) ≡ proto_suffix proto
proto_suffix-normalized proto = elim (normalized_cases proto) [
  | inl (e, n) ↦ rw (n, e) proto_suffix-empty
  | inr n ↦ rw n
]

write_ports-render :
    (first : Bool) (ps : List PortRange)
    → write_ports first ps ≡ render_ports first (map port_tuple ps)
unfolding write_ports render_ports port_key render_port
write_ports-render first [] = refl
write_ports-render first (p ∷ ps) =
    rw (proto_suffix-normalized p.proto, write_ports-render false ps)

write_addr_key-render : (a : AddrSpec) → write_addr_key a ≡ render_addr (addr_tuple a)
unfolding write_addr_key render_addr
write_addr_key-render a = rw (write_ports-render true a.ports)

tuple_key-render : (r : Rule) → tuple_key r ≡ render (tuple r)
unfolding tuple_key render
tuple_key-render r = rw (write_addr_key-render r.src, write_addr_key-render r.dst)

-- Two rules that `sameTuple` identifies have the same `TupleKey`.
pub tuple_key_of_same_tuple : (r o : Rule) → same_tuple r o ≡ true → tuple_key r ≡ tuple_key o
tuple_key_of_same_tuple r o h =
    tuple_key-render r ∙ ap render ((same_tuple_iff r o).0 h) ∙ sym (tuple_key-render o)
