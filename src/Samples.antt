-- ===== src/Samples.antt =====
-- Rules, lists and port expressions at which the theorems are applied, and runs of the code on them.
mod Check
mod Commands
mod Detector
mod NetTexts
mod Nft
mod Texts
mod Threats
use better_firewall.Prelude.{
  ℕ, Bool, true, false, List, [], ◌∷◌, ◌++◌, String, Option, none, some, ◌≡◌, refl, arith, ◌==◌,
  ℕ-eq, String-eq, Bool-eq, get_elem?, ◌≤◌, length, if◌then◌else◌, ◌↔◌, ◌⊎◌,
}
use better_firewall.Prelude.Int.{ℤ, pos, negsuc}
use better_firewall.Rule.{
  PortRange, AddrSpec, Rule, same_tuple, set_v6, match, tuple_dir, forward, same_addr_tuple,
  same_ports, normalized_port_proto,
}
use better_firewall.Rule.Tuple.{tuple, same_tuple_iff}
use better_firewall.Rule.Keys.{tuple_key}
use better_firewall.Rule.Keys.Laws.{tuple_key_of_same_tuple}
use better_firewall.Store.{State, defaults}
use better_firewall.Engine.{
  no_group, set_rule_engine, Outcome, out_inserted, out_added, out_updated, out_skip_add,
  out_deleted,
}
use better_firewall.Engine.Frame.{others, others-set_rule_engine}
use better_firewall.Engine.Unique.{IsUnique, twin_count, set_rule_engine-IsUnique}
use better_firewall.Engine.Spec.{
  add_rule, remove_rule, set_rule_engine-add_rule, set_rule_engine-remove_rule, add-add, remove-add,
}
use better_firewall.Engine.Insert.{InsertedAt, set_rule_engine-insert}
use better_firewall.Engine.Groups.{AllInside}
use better_firewall.Numbering.{mark_families, rule_by_number}
use better_firewall.Numbering.Laws.{displayed, rule_by_number-displayed}

pub sampled : Unit {0}
unfolding set_rule_engine match same_tuple tuple_dir forward same_addr_tuple same_ports
    normalized_port_proto
sampled = tt

abbrev pub anywhere : AddrSpec
anywhere = record { ip = ""; ports = []; set = "" }

abbrev pub at_port : ℕ → AddrSpec
at_port p = record { ip = ""; ports = record { lo = p; hi = p; proto = "" } ∷ []; set = "" }

abbrev pub allow : ℕ → Rule
allow p = record {
  id = "";
  action = "allow";
  direction = "in";
  route_dir = "";
  iface_in = "";
  iface_out = "";
  proto = "tcp";
  icmp_type = "";
  src = anywhere;
  dst = at_port p;
  dapp = "";
  sapp = "";
  log = "";
  comment = "";
  expires_at = pos 0;
  disabled = false;
  v6 = false;
}

abbrev pub ssh : Rule
ssh = allow 22

abbrev pub web : Rule
web = allow 80

-- The rule for port 22 with another action.
abbrev pub limited_ssh : Rule
limited_ssh = record ssh { action = "limit" }

-- The rule for port 22 with its port protocol written out.
abbrev any_ssh : Rule
any_ssh = record ssh {
  dst = record { ip = ""; ports = record { lo = 22; hi = 22; proto = "any" } ∷ []; set = "" };
}

abbrev pub two_rules : List Rule
two_rules = ssh ∷ web ∷ []

pub nothing-IsUnique : IsUnique []
nothing-IsUnique x = ground arith

pub two_rules-IsUnique : IsUnique two_rules
unfolding sampled
two_rules-IsUnique =
    set_rule_engine-IsUnique (ssh ∷ []) web 0 false
      (set_rule_engine-IsUnique [] ssh 0 false nothing-IsUnique)

set_rule_engine_tests :
    (set_rule_engine two_rules limited_ssh 0 false ≡ (limited_ssh ∷ web ∷ [], out_updated))
    × (set_rule_engine two_rules (allow 443) 2 false ≡ (ssh ∷ allow 443 ∷ web ∷ [], out_inserted))
    × (set_rule_engine two_rules ssh 0 true ≡ (web ∷ [], out_deleted))
unfolding sampled
set_rule_engine_tests = (refl, refl, refl)

set_rule_engine-IsUnique_example : IsUnique (set_rule_engine two_rules (allow 443) 2 false).0
set_rule_engine-IsUnique_example =
    set_rule_engine-IsUnique two_rules (allow 443) 2 false two_rules-IsUnique

others-set_rule_engine_example :
    others limited_ssh (set_rule_engine two_rules limited_ssh 0 false).0
    ≡ others limited_ssh two_rules
others-set_rule_engine_example = others-set_rule_engine two_rules limited_ssh 0 false

set_rule_engine-add_rule_example :
    set_rule_engine two_rules limited_ssh 0 false ≡ add_rule limited_ssh two_rules
set_rule_engine-add_rule_example = set_rule_engine-add_rule two_rules limited_ssh two_rules-IsUnique

set_rule_engine-remove_rule_example :
    set_rule_engine two_rules ssh 0 true ≡ remove_rule ssh two_rules
set_rule_engine-remove_rule_example = set_rule_engine-remove_rule two_rules ssh two_rules-IsUnique

add-add_example :
    set_rule_engine (set_rule_engine two_rules limited_ssh 0 false).0 limited_ssh 0 false
    ≡ ((set_rule_engine two_rules limited_ssh 0 false).0, out_skip_add)
add-add_example = add-add two_rules limited_ssh two_rules-IsUnique

no_twin : twin_count (allow 443) two_rules ≡ 0
unfolding sampled
no_twin = refl

remove-add_example :
    set_rule_engine (set_rule_engine two_rules (allow 443) 0 false).0 (allow 443) 0 true
    ≡ (two_rules, out_deleted)
remove-add_example = remove-add two_rules (allow 443) no_twin

set_rule_engine-insert_example :
    (((set_rule_engine two_rules (allow 443) 2 false).1 ≡ out_inserted)
      × InsertedAt (allow 443) 2 two_rules (set_rule_engine two_rules (allow 443) 2 false).0)
    ⊎ ((set_rule_engine two_rules (allow 443) 2 false ≡ (two_rules ++ allow 443 ∷ [], out_added))
        × AllInside 2 false no_group 1 two_rules)
set_rule_engine-insert_example =
    set_rule_engine-insert two_rules (allow 443) 2 (omega arith) no_twin

same_tuple_iff_example : (same_tuple ssh any_ssh ≡ true) ↔ (tuple ssh ≡ tuple any_ssh)
same_tuple_iff_example = same_tuple_iff ssh any_ssh

same_rules : same_tuple ssh any_ssh ≡ true
unfolding sampled
same_rules = refl

tuple_key_of_same_tuple_example : tuple_key ssh ≡ tuple_key any_ssh
tuple_key_of_same_tuple_example = tuple_key_of_same_tuple ssh any_ssh same_rules

abbrev pub both_families : State
both_families = record defaults { rules4 = two_rules; rules6 = set_v6 ssh true ∷ [] }

rule_by_number-displayed_example :
    rule_by_number both_families (pos 3) ≡ get_elem? (displayed both_families) 2
rule_by_number-displayed_example = rule_by_number-displayed both_families 2
