-- ===== src/Samples/Check.antt =====
-- Runs of `check`.
use better_firewall.Prelude.{true, false, [], ◌∷◌, ◌≡◌, refl, String-eq, ℕ-eq, Bool-eq}
use better_firewall.Prelude.Int.{pos}
use better_firewall.Rule.{Rule, PortRange}
use better_firewall.Net.{v4}
use better_firewall.Store.{defaults}
use better_firewall.Check.{rule_superset, cmd_check, rule_shadowed}
use better_firewall.Check.Packets.{Packet, World, matches, port_in_some}
use better_firewall.Check.Shadows.{rule_superset-matches}
use better_firewall.Samples.{ssh}
use better_firewall.Samples.NetTexts.{stroke_text, read_addr, read_prefix, read_strokes}

-- From 0.0.0.2 to the ports for ssh.
abbrev narrow : Rule
narrow = record ssh {
  src = record { ip = "411"; ports = []; set = "" };
  dst = record { ip = "any"; ports = record { lo = 22; hi = 22; proto = "tcp" } ∷ []; set = "" };
}

-- From 0.0.0.0/2 to the ports up to 1024.
abbrev broad : Rule
broad = record ssh {
  proto = "any";
  src = record { ip = "a111/11"; ports = []; set = "" };
  dst = record { ip = "any"; ports = record { lo = 1; hi = 1024; proto = "" } ∷ []; set = "" };
}

abbrev no_sets : World
no_sets = record { members = λ s a. false; named = λ s i. false }

abbrev login : Packet
login = record {
  six = false;
  direction = "in";
  iface_in = "eth0";
  iface_out = "";
  proto = "tcp";
  icmp_type = "";
  source = v4 2;
  source_port = 5000;
  dest = v4 9;
  dest_port = 22;
}

narrow_below_broad : rule_superset stroke_text narrow broad ≡ true
unfolding rule_superset stroke_text read_addr read_prefix read_strokes
narrow_below_broad = refl

first_match : matches stroke_text no_sets narrow login ≡ true
unfolding matches stroke_text read_addr read_prefix read_strokes port_in_some
first_match = refl

rule_superset-matches_example : matches stroke_text no_sets broad login ≡ true
rule_superset-matches_example =
    rule_superset-matches stroke_text no_sets narrow broad login refl refl narrow_below_broad
      first_match

-- A rule for one port of a set counts as a cover of a rule for another port of it.
abbrev of_set : PortRange → Rule
of_set p = record ssh { src = record { ip = ""; ports = p ∷ []; set = "lan" } }

other_port_shadowed :
    rule_superset stroke_text
      (of_set (record { lo = 80; hi = 80; proto = "tcp" }))
      (of_set (record { lo = 22; hi = 22; proto = "tcp" }))
    ≡ true
unfolding rule_superset
other_port_shadowed = refl

check_run :
    cmd_check stroke_text (pos 7) true (record defaults { rules4 = broad ∷ narrow ∷ [] })
    ≡ rule_shadowed 2 1 ∷ []
unfolding cmd_check stroke_text read_addr read_prefix read_strokes defaults
check_run = refl
