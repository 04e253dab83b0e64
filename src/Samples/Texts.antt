-- ===== src/Samples/Texts.antt =====
-- A services file of one line, and port expressions.
use better_firewall.Prelude.{
  ℕ, true, false, List, [], ◌∷◌, String, some, ◌≡◌, refl, arith, ◌==◌, String-eq, Bool-eq,
  if◌then◌else◌, split_char, count_char, ends_char, fields, all_chars, to_lower, number_from,
  cut_char, Bool-cases, inl, inr,
}
use better_firewall.Prelude.Int.{pos}
use better_firewall.Rule.{PortRange}
use better_firewall.Services.{
  Table, lookup, store, add_name, add_names, load, load_lines, load_fields, proto, entry_proto,
  exists, note_proto, atoi, split_sign,
}
use better_firewall.Services.Laws.{noted, contains, lookup-add_names}
use better_firewall.Ports.{
  parse_port_ranges, parse_items, parse_item, loose_ends, is_service, range_parts, bad_range, u16,
  valid_port_list, port_strs, port_str,
}
use better_firewall.Ports.Bounds.{
  HasPorts, AllInBounds, parsed, parse_port_ranges-AllInBounds, valid_port_list-parsed,
}

abbrev expression : String
expression = "ssh,80:90"

read : Unit {0}
unfolding load load_lines load_fields add_names add_name note_proto atoi split_sign store lookup
    proto entry_proto exists parse_port_ranges parse_items parse_item loose_ends is_service
    range_parts bad_range u16 split_char count_char ends_char fields number_from cut_char port_strs
    port_str all_chars to_lower
read = tt

abbrev table : Table
table = ("ssh", record { port = pos 22; tcp = true; udp = false; other = false }) ∷ []

load_test : load (some ("# services" ∷ "ssh 22/tcp # remote login" ∷ [])) ≡ table
unfolding read
load_test = refl

abbrev range : ℕ → ℕ → PortRange
range lo hi = record { lo = lo; hi = hi; proto = "" }

ranges : List PortRange
ranges = range 22 22 ∷ range 80 90 ∷ []

parse_test : parse_port_ranges table expression ≡ some (range 22 22 ∷ range 80 90 ∷ [])
unfolding read
parse_test = refl

table-HasPorts : HasPorts table
unfolding proto lookup
table-HasPorts name n p e = elim (Bool-cases ("ssh" == name)) [
  | inl named ↦ (22, ground arith, omega arith, omega arith)
  | inr other ↦ elim (some≢none e other) [ ]
]
  where
    some≢none : proto table name ≡ some (n, p) → ("ssh" == name) ≡ false → ⊥
    some≢none e o = ground arith

parse_port_ranges-AllInBounds_example : AllInBounds (range 22 22 ∷ range 80 90 ∷ [])
parse_port_ranges-AllInBounds_example =
    parse_port_ranges-AllInBounds table expression (range 22 22 ∷ range 80 90 ∷ []) table-HasPorts
      parse_test

valid_port_list-parsed_example :
    valid_port_list table expression
    ≡ (if expression == "any" then true else parsed (parse_port_ranges table expression))
valid_port_list-parsed_example = valid_port_list-parsed table expression

lookup-add_names_example : lookup "ssh" (add_names (pos 2222) "udp" table ("ssh" ∷ "alt" ∷ [])) ≡ (
    if contains "ssh" ("ssh" ∷ "alt" ∷ [])
    then some (noted (pos 2222) "udp" (lookup "ssh" table))
    else lookup "ssh" table)
lookup-add_names_example = lookup-add_names (pos 2222) "udp" table ("ssh" ∷ "alt" ∷ []) "ssh"
