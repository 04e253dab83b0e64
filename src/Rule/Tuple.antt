-- ===== src/Rule/Tuple.antt =====
-- internal/rule/rule.go: `sameTuple` decides equality of the fields that identify a rule.
use text.Mathlib.TextEquality.{eq_iff}
use better_firewall.Prelude.{
  ℕ, Bool, true, List, [], ◌∷◌, String, length, ◌≡◌, refl, ◌↔◌, map, arith, nat_eq_iff,
  Bool_beq_iff,
}
use better_firewall.Rule.{
  PortRange, AddrSpec, Rule, forward, normalized_port_proto, same_ports, same_addr_tuple, tuple_dir,
  same_tuple,
}

abbrev pub port_tuple : PortRange → ℕ × ℕ × String
port_tuple p = (p.lo, p.hi, normalized_port_proto p.proto)

pub record AddrTuple : Type 0 where
  pub ip : String
  pub set : String
  pub ports : List (ℕ × ℕ × String)

pub record Tuple : Type 0 where
  pub dir : String
  pub forward : Bool
  pub proto : String
  pub icmp_type : String
  pub iface_in : String
  pub iface_out : String
  pub v6 : Bool
  pub dapp : String
  pub sapp : String
  pub src : AddrTuple
  pub dst : AddrTuple

abbrev pub addr_tuple : AddrSpec → AddrTuple
addr_tuple a = record { ip = a.ip; set = a.set; ports = map port_tuple a.ports }

-- The fields of a rule that identify it.
abbrev pub tuple : Rule → Tuple
tuple r = record {
  dir = tuple_dir r;
  forward = forward r;
  proto = r.proto;
  icmp_type = r.icmp_type;
  iface_in = r.iface_in;
  iface_out = r.iface_out;
  v6 = r.v6;
  dapp = r.dapp;
  sapp = r.sapp;
  src = addr_tuple r.src;
  dst = addr_tuple r.dst;
}

same_ports_sound :
    (as' bs : List PortRange)
    → length as' ≡ length bs
    → same_ports as' bs ≡ true
    → map port_tuple as' ≡ map port_tuple bs
unfolding same_ports
same_ports_sound [] [] l h = refl
same_ports_sound [] (b ∷ bs) l h = absurd (omega arith)
same_ports_sound (a ∷ as') [] l h = absurd (omega arith)
same_ports_sound (a ∷ as') (b ∷ bs) l h = ground (
  arith,
  nat_eq_iff a.lo b.lo,
  nat_eq_iff a.hi b.hi,
  eq_iff (normalized_port_proto a.proto) (normalized_port_proto b.proto),
  same_ports_sound as' bs,
)

same_ports_complete :
    (as' bs : List PortRange)
    → map port_tuple as' ≡ map port_tuple bs
    → (length as' ≡ length bs) × (same_ports as' bs ≡ true)
unfolding same_ports
same_ports_complete [] [] h = (refl, refl)
same_ports_complete [] (b ∷ bs) h = cc
same_ports_complete (a ∷ as') [] h = cc
same_ports_complete (a ∷ as') (b ∷ bs) h = ground (
  arith,
  nat_eq_iff a.lo b.lo,
  nat_eq_iff a.hi b.hi,
  eq_iff (normalized_port_proto a.proto) (normalized_port_proto b.proto),
  same_ports_complete as' bs,
)

same_addr_sound : (a b : AddrSpec) → same_addr_tuple a b ≡ true → addr_tuple a ≡ addr_tuple b
unfolding same_addr_tuple
same_addr_sound a b h =
    ground (arith, eq_iff a.ip b.ip, eq_iff a.set b.set, same_ports_sound a.ports b.ports)

same_addr_complete : (a b : AddrSpec) → addr_tuple a ≡ addr_tuple b → same_addr_tuple a b ≡ true
unfolding same_addr_tuple
same_addr_complete a b h =
    ground (arith, eq_iff a.ip b.ip, eq_iff a.set b.set, same_ports_complete a.ports b.ports)

-- `sameTuple` holds of two rules exactly when the fields that identify a rule are equal in both, a
-- port protocol of "any" and an empty one being the same, and a routed rule's direction being its
-- `route_dir` if that is set.
pub same_tuple_iff : (r o : Rule) → (same_tuple r o ≡ true) ↔ (tuple r ≡ tuple o)
unfolding same_tuple
same_tuple_iff r o = ground (
  arith,
  eq_iff (tuple_dir r) (tuple_dir o),
  Bool_beq_iff (forward r) (forward o),
  eq_iff r.proto o.proto,
  eq_iff r.icmp_type o.icmp_type,
  eq_iff r.iface_in o.iface_in,
  eq_iff r.iface_out o.iface_out,
  Bool_beq_iff r.v6 o.v6,
  eq_iff r.dapp o.dapp,
  eq_iff r.sapp o.sapp,
  same_addr_sound r.src o.src,
  same_addr_sound r.dst o.dst,
  same_addr_complete r.src o.src,
  same_addr_complete r.dst o.dst,
)
