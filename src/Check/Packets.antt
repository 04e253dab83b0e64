-- ===== src/Check/Packets.antt =====
-- Which packets a rule is for, as its fields say.
use better_firewall.Prelude.{
  ℕ, Bool, true, false, ◌&&◌, ◌||◌, List, [], ◌∷◌, String, none, some, leb, ◌==◌, String-eq,
  Bool-eq, if◌then◌else◌,
}
use better_firewall.Rule.{Rule, PortRange, AddrSpec, any}
use better_firewall.Net.{NetText, Addr, contains}
use better_firewall.Check.{to_prefix}

pub record Packet : Type 0 where
  pub six : Bool
  pub direction : String
  pub iface_in : String
  pub iface_out : String
  pub proto : String
  pub icmp_type : String
  pub source : Addr
  pub source_port : ℕ
  pub dest : Addr
  pub dest_port : ℕ

-- Which addresses the sets hold, and which interfaces the names of interfaces stand for.
pub record World : Type 0 where
  pub members : String → Addr → Bool
  pub named : String → String → Bool

abbrev pub for_proto : String → String → Bool
for_proto rule proto = rule == "" || rule == "any" || rule == proto

unfoldable pub port_in : String → ℕ → PortRange → Bool
port_in proto port p = for_proto p.proto proto && leb p.lo port && leb port p.hi

unfoldable pub port_in_some : String → ℕ → List PortRange → Bool
unfolding port_in
port_in_some proto port [] = false
port_in_some proto port (p ∷ ps) = port_in proto port p || port_in_some proto port ps

abbrev pub port_matches : String → ℕ → List PortRange → Bool
port_matches proto port [] = true
port_matches proto port (p ∷ ps) = port_in_some proto port (p ∷ ps)

abbrev pub iface_matches : World → String → String → Bool
iface_matches w rule iface = rule == "" || w.named rule iface

module _ (net : NetText) (w : World) where
  unfoldable pub address_in : String → Addr → Bool
  unfolding to_prefix contains
  address_in text ip = elim (to_prefix net text) [ none ↦ false | some p ↦ contains p ip ]

  unfoldable pub addr_matches : AddrSpec → Addr → Bool
  unfolding address_in any
  addr_matches a ip = if a.set == "" then any a || address_in a.ip ip else w.members a.set ip

  unfoldable pub matches : Rule → Packet → Bool
  unfolding addr_matches
  matches r p =
      (r.v6 == p.six
        && (r.direction == p.direction
            && (iface_matches w r.iface_in p.iface_in
                && (iface_matches w r.iface_out p.iface_out
                    && (for_proto r.proto p.proto
                        && (r.icmp_type == "" || r.icmp_type == p.icmp_type))))))
      && ((addr_matches r.src p.source && port_matches p.proto p.source_port r.src.ports)
          && (addr_matches r.dst p.dest && port_matches p.proto p.dest_port r.dst.ports))
