-- ===== src/Samples/Nft.antt =====
-- Runs of the compilation to nftables.
use better_firewall.Prelude.{
  ℕ, ◌-◌, ◌^◌, Bool, true, false, List, [], ◌∷◌, String, none, some, ◌≡◌, ◌∙◌, refl, inl, arith,
  All, keep, ◌<>◌, String-eq, ℕ-eq, count_char, all_chars, ends_char, utf8,
}
use better_firewall.Prelude.Int.{pos}
use better_firewall.Prelude.Result.{Result, ok, err}
use better_firewall.Rule.{Rule, AddrSpec, PortRange, expired}
use better_firewall.Store.{State, ThreatBan, NatRule, defaults}
use better_firewall.Net.{in_prefix, is4in6, is4, unmap}
use better_firewall.Nft.Compiled.{
  Compiled, CompileError, is_named, empty_compiled, bad_element, iface_panic,
}
use better_firewall.Nft.Intervals.{Interval, merge_addr_intervals}
use better_firewall.Nft.Intervals.Merge.{covered, covered-merge, StartsFrom, merge-top}
use better_firewall.Nft.Intervals.Gaps.{Separated, merge-Separated}
use better_firewall.Nft.Sets.{compile_address_set, compile_threat_bans, active_addresses}
use better_firewall.Nft.Sets.Cover.{
  address, listed, unreadable, intervals_of, with_sets, compile_address_set-covers,
  compile_address_set-bad,
}
use better_firewall.Nft.Sets.Bans.{banned, with_bans, compile_threat_bans-covers}
use better_firewall.Nft.Rules.{
  append_port_exprs, applies, proto_variants, seen_protos, user_chain_for, user_logging_chain_for,
}
use better_firewall.Nft.Match.{proto_num, iface_panics}
use better_firewall.Rule.Icmp.{icmp_type_number}
use better_firewall.Nft.UserRules.{compile_rule, compile_rules}
use better_firewall.Nft.PortMatch.{Ports, passes, allowed, append_port_exprs-passes}
use better_firewall.Commands.{sweep_expired}
use better_firewall.Nft.Swept.{compile-sweep_expired}
use better_firewall.Nft.Ifaces.{both_ifaces}
use better_firewall.Nft.Active.{in_force, compile_rules-in_force}
use better_firewall.Nft.Nat.{split_to_dest, nat_match, compile_nat_rule}
use better_firewall.Nft.Nat.Target.{Free, split_to_dest-bracketed, split_to_dest-plain}
use better_firewall.Nft.Compile.{compile}
use better_firewall.Nft.Closed.{Closed, declared_chains, compile-Closed}
use better_firewall.Nft.Ids.{Numbered}
use better_firewall.Nft.Ids.Steps.{compile-Numbered}
use better_firewall.Nft.Accepts.{is_ok, variants_ok, is_ok-rule}
use better_firewall.Nft.Frame.Chains.{subset}
use better_firewall.Nft.Accepts.Nat.{nats_ok}
use better_firewall.Nft.Accepts.Whole.{sets_ok, rules_ok, state_ok, is_ok-compile}
use better_firewall.Nft.Frame.{Adds}
use better_firewall.Nft.Frame.User.{own_chains, own_targets}
use better_firewall.Nft.Own.{compile_rule-own}
use better_firewall.Samples.NetTexts.{stroke_text, read_addr, read_prefix, read_strokes}
use better_firewall.Nft.Match.{parse_addr_or_prefix}

abbrev iv : ℕ → ℕ → Interval
iv start end = record { start = start; end = some end }

abbrev three : List Interval
three = iv 10 20 ∷ iv 0 6 ∷ iv 15 30 ∷ []

covered-merge_example : covered 25 (merge_addr_intervals three) ≡ covered 25 three
covered-merge_example = covered-merge 25 three (refl, (refl, (refl, tt)))

merge-Separated_example :
    Separated (merge_addr_intervals three) × StartsFrom 0 (merge_addr_intervals three)
merge-Separated_example = merge-Separated three

merge-top_example :
    merge_addr_intervals (record { start = 0; end = none } ∷ iv 10 20 ∷ []) ≡ iv 0 20 ∷ []
merge-top_example = merge-top 0 10 20 (omega arith)

-- The address 0.0.0.2, the prefix 0.0.0.3/2, and a text that is neither.
abbrev texts : List String
texts = "411" ∷ "a111/11" ∷ []

abbrev bad_texts : List String
bad_texts = "411" ∷ "host" ∷ "4" ∷ []

unreadable-texts : unreadable stroke_text texts ≡ none
unfolding unreadable stroke_text parse_addr_or_prefix read_addr read_prefix read_strokes count_char
    is4in6
unreadable-texts = refl

texts_end : listed stroke_text (address false (2 ^ 32 - 1)) texts ≡ false
unfolding listed stroke_text parse_addr_or_prefix read_addr read_prefix read_strokes count_char
    in_prefix is4in6 unmap is4
texts_end = refl

compile_address_set-covers_example :
    (compile_address_set stroke_text "bfw_set_lan" "bfw_set_lan6" "set lan" texts empty_compiled
      ≡ ok (with_sets stroke_text "bfw_set_lan" "bfw_set_lan6" texts empty_compiled))
    × Separated (intervals_of stroke_text false texts)
    × (covered 2 (intervals_of stroke_text false texts)
        ≡ listed stroke_text (address false 2) texts)
compile_address_set-covers_example =
    compile_address_set-covers stroke_text false "bfw_set_lan" "bfw_set_lan6" "set lan" texts
      empty_compiled 2 unreadable-texts (omega arith) texts_end

bad_unreadable : unreadable stroke_text bad_texts ≡ some "host"
unfolding unreadable stroke_text parse_addr_or_prefix read_addr read_prefix read_strokes count_char
bad_unreadable = refl

compile_address_set-bad_example :
    compile_address_set stroke_text "bfw_set_lan" "bfw_set_lan6" "set lan" bad_texts empty_compiled
    ≡ err (bad_element "set lan" "host")
compile_address_set-bad_example =
    compile_address_set-bad stroke_text "bfw_set_lan" "bfw_set_lan6" "set lan" bad_texts
      empty_compiled "host" bad_unreadable

abbrev ban_until : String → ℕ → ThreatBan
ban_until addr time = record {
  address = addr;
  source = "ssh:sshd";
  reason = "failed authentication";
  decision_id = pos 0;
  expires_at = pos time;
}

-- One ban has expired at 200, the other has not.
abbrev bans : List ThreatBan
bans = ban_until "host" 100 ∷ ban_until "4111" 500 ∷ []

bans_unreadable : unreadable stroke_text (active_addresses (pos 200) bans) ≡ none
unfolding unreadable active_addresses stroke_text parse_addr_or_prefix read_addr read_prefix
    read_strokes count_char
bans_unreadable = refl

bans_end : banned stroke_text (pos 200) bans (address false (2 ^ 32 - 1)) ≡ false
unfolding banned stroke_text parse_addr_or_prefix read_addr read_prefix read_strokes count_char
    in_prefix is4in6 unmap is4
bans_end = refl

compile_threat_bans-covers_example :
    (compile_threat_bans stroke_text (pos 200) bans empty_compiled
      ≡ ok (with_bans stroke_text (pos 200) bans empty_compiled))
    × Separated (intervals_of stroke_text false (active_addresses (pos 200) bans))
    × (covered 3 (intervals_of stroke_text false (active_addresses (pos 200) bans))
        ≡ banned stroke_text (pos 200) bans (address false 3))
compile_threat_bans-covers_example =
    compile_threat_bans-covers stroke_text false (pos 200) bans empty_compiled 3 bans_unreadable
      (omega arith) bans_end

abbrev anywhere : AddrSpec
anywhere = record { ip = "any"; ports = []; set = "" }

abbrev port_range : ℕ → ℕ → String → PortRange
port_range lo hi proto = record { lo = lo; hi = hi; proto = proto }

abbrev web_ports : List PortRange
web_ports = port_range 80 80 "tcp" ∷ port_range 53 53 "udp" ∷ port_range 65000 65535 "" ∷ []

-- A wildcard with 17 bytes before the plus sign; one byte less is no panic.
long_wildcard_panics : iface_panics "abcdefghijklmnopq+" ≡ true
unfolding iface_panics ends_char utf8
long_wildcard_panics = refl

short_wildcard_fits : iface_panics "abcdefghijklmnop+" ≡ false
unfolding iface_panics ends_char utf8
short_wildcard_fits = refl

abbrev web_rule : Bool → Rule
web_rule disabled = record {
  id = "w";
  action = "limit";
  direction = "in";
  route_dir = "";
  iface_in = "";
  iface_out = "";
  proto = "tcp";
  icmp_type = "";
  src = anywhere;
  dst = record { ip = "any"; ports = web_ports; set = "" };
  dapp = "";
  sapp = "";
  log = "log";
  comment = "";
  expires_at = pos 0;
  disabled = disabled;
  v6 = false;
}

abbrev from_5000 : Ports
from_5000 = record { sport = 5000; dport = 65535 }

append_port_exprs-passes_example :
    passes
      (append_port_exprs web_ports "dport" "tcp" empty_compiled).1.sets
      from_5000
      (append_port_exprs web_ports "dport" "tcp" empty_compiled).0
    ≡ allowed 65535 (keep (applies "tcp") web_ports)
unfolding applies
append_port_exprs-passes_example =
    append_port_exprs-passes from_5000 web_ports "dport" "tcp" empty_compiled (omega arith)
      ((omega arith, omega arith), ((omega arith, omega arith), ((omega arith, omega arith), tt)))
      ((inl (omega arith), tt), (tt, tt)) refl

compile_rules-in_force_example :
    compile_rules stroke_text (web_rule true ∷ web_rule false ∷ []) false (pos 200) empty_compiled
    ≡ compile_rules stroke_text
        (keep (in_force (pos 200)) (web_rule true ∷ web_rule false ∷ []))
        false
        (pos 200)
        empty_compiled
compile_rules-in_force_example =
    compile_rules-in_force stroke_text false (pos 200) (web_rule true ∷ web_rule false ∷ [])
      empty_compiled

v6-Free : Free b']' "::1"
unfolding all_chars
v6-Free = refl

host-Free : Free b':' "10.0.0.1"
unfolding all_chars
host-Free = refl

port-Free : Free b':' "80"
unfolding all_chars
port-Free = refl

split_to_dest-bracketed_example : split_to_dest ("[" <> "::1" <> "]:" <> "80") ≡ ("::1", "80")
split_to_dest-bracketed_example = split_to_dest-bracketed "::1" "80" v6-Free

split_to_dest-plain_example : split_to_dest ("10.0.0.1" <> ":" <> "80") ≡ ("10.0.0.1", "80")
split_to_dest-plain_example = split_to_dest-plain "10.0.0.1" "80" host-Free port-Free refl

abbrev state : State
state = record defaults {
  rules4 = web_rule true ∷ web_rule false ∷ [];
  bans = bans;
  nat =
      record {
        kind = "masquerade";
        iface_in = "";
        iface_out = "eth0";
        proto = "any";
        src = "";
        dst = "";
        dport = 0;
        to_dest = "";
      }
      ∷ [];
}

state_compiles : state_ok stroke_text (pos 200) state ≡ true
unfolding defaults unreadable active_addresses stroke_text parse_addr_or_prefix read_addr
    read_prefix read_strokes count_char sets_ok rules_ok nats_ok variants_ok expired proto_variants
    proto_num icmp_type_number seen_protos ends_char
state_compiles = refl

is_ok-compile_example :
    is_ok (compile stroke_text (pos 200) state []) ≡ state_ok stroke_text (pos 200) state
is_ok-compile_example = is_ok-compile stroke_text (pos 200) state []

compile-sweep_expired_example :
    compile stroke_text (pos 200) (sweep_expired (pos 200) state) []
    ≡ compile stroke_text (pos 200) state []
compile-sweep_expired_example = compile-sweep_expired stroke_text (pos 200) state []

-- A NAT rule for all interfaces of too long a prefix.
abbrev long_nat : NatRule
long_nat = record {
  kind = "masquerade";
  iface_in = "";
  iface_out = "abcdefghijklmnopq+";
  proto = "any";
  src = "";
  dst = "";
  dport = 0;
  to_dest = "";
}

long_nat_panics :
    compile_nat_rule stroke_text 0 long_nat empty_compiled ≡ err (iface_panic "abcdefghijklmnopq+")
unfolding compile_nat_rule nat_match both_ifaces ends_char utf8
long_nat_panics = refl

-- The value of a result that is one.
value_of : (m : Result CompileError Compiled) → is_ok m ≡ true → (d : Compiled) × (m ≡ ok d)
value_of (ok d) h = (d, refl)
value_of (err e) h = absurd (ground (arith, h))

compiled_state : (d : Compiled) × (compile stroke_text (pos 200) state [] ≡ ok d)
compiled_state =
    value_of (compile stroke_text (pos 200) state [])
      (is_ok-compile stroke_text (pos 200) state [] ∙ state_compiles)

compile-Closed_example :
    (compiled_state.0.chains ≡ declared_chains state [])
    × All (Closed compiled_state.0.chains) compiled_state.0.rules
compile-Closed_example =
    compile-Closed stroke_text (pos 200) state [] compiled_state.0 compiled_state.1

compile-Numbered_example : Numbered compiled_state.0
compile-Numbered_example =
    compile-Numbered stroke_text (pos 200) state [] compiled_state.0 compiled_state.1

-- The chains that the rule needs.
abbrev ready : Compiled
ready = record empty_compiled { chain_index = "bfw-user-logging-input" ∷ "bfw-user-input" ∷ [] }

rule_compiles : is_ok (compile_rule stroke_text (web_rule false) false (pos 200) ready) ≡ true
unfolding variants_ok expired proto_variants proto_num icmp_type_number seen_protos ends_char
rule_compiles = is_ok-rule (web_rule false) stroke_text false (pos 200) ready ∙ refl

compiled_rule :
    (d : Compiled) × (compile_rule stroke_text (web_rule false) false (pos 200) ready ≡ ok d)
compiled_rule =
    value_of (compile_rule stroke_text (web_rule false) false (pos 200) ready) rule_compiles

own_ready : subset (own_chains (web_rule false)) ready.chain_index ≡ true
unfolding subset is_named user_chain_for user_logging_chain_for
own_ready = refl

compile_rule-own_example :
    Adds (own_chains (web_rule false)) (own_targets (web_rule false)) ready compiled_rule.0
compile_rule-own_example =
    compile_rule-own stroke_text (web_rule false) false (pos 200) ready compiled_rule.0 own_ready
      compiled_rule.1
