-- ===== src/Parser.antt =====
-- internal/cli/parser.go: the helpers of the rule parser.
pub mod Expiry
use Prim.Native.Char.{Char, code}
use Prim.Native.String
use better_firewall.Prelude.{
  ℕ, suc, ◌+◌, ◌*◌, ◌/◌, ◌^◌, ◌-◌, Bool, true, false, not, ◌&&◌, ◌||◌, List, [], ◌∷◌, String,
  Option, none, some, ltb, nat_eq, ◌==◌, ℕ-eq, String-eq, if◌then◌else◌, map, length, split_char,
  is_number, number_from, to_lower,
}
use better_firewall.Prelude.Int.{ℤ, pos, negsuc, ◌+ℤ◌}
use better_firewall.Rule.{PortRange, Rule}
use better_firewall.Services.{Table, supported_protocol, portless_protocol}
use better_firewall.Ports.{parse_port_ranges}

-- `countTok`.
unfoldable pub count_tok : List String → String → ℕ
count_tok [] tok = 0
count_tok (a ∷ argv) tok = (if a == tok then 1 else 0) + count_tok argv tok

-- `indexTok`; `none` is its -1.
unfoldable pub index_tok : List String → String → Option ℕ
index_tok [] tok = none
index_tok (a ∷ argv) tok =
    let rest = index_tok argv tok in
    if a == tok then some 0 else elim rest [ none ↦ none | some i ↦ some (suc i) ]

pub is_one_of : String → List String → Bool
is_one_of a [] = false
is_one_of a (t ∷ toks) = if a == t then true else is_one_of a toks

-- `hasAnyTok`.
unfoldable pub has_any_tok : List String → List String → Bool
unfolding is_one_of
has_any_tok [] toks = false
has_any_tok (a ∷ argv) toks = if is_one_of a toks then true else has_any_tok argv toks

-- `isDirTok`.
unfoldable pub is_dir_tok : String → Bool
is_dir_tok s = to_lower s == "in" || to_lower s == "out"

-- `isLogTok`.
unfoldable pub is_log_tok : String → Bool
is_log_tok s = to_lower s == "log" || to_lower s == "log-all"

-- `parsePortProto`: the port and the protocol; `none` is its error.
pub port_proto : List String → Option (String × String)
port_proto [] = none
port_proto (port ∷ []) = some (port, "any")
port_proto (port ∷ proto ∷ []) = if portless_protocol proto then none else some (port, proto)
port_proto (port ∷ proto ∷ more ∷ parts) = none

unfoldable pub parse_port_proto : String → Option (String × String)
unfolding port_proto
parse_port_proto s = port_proto (split_char b'/' s)

-- `setProto`, `setPorts` and `setPort`; `none` is the error.
unfoldable pub set_proto : Rule → String → Option Rule
set_proto r p = if p == "any" || supported_protocol p then some (record r { proto = p }) else none

pub set_ports : Rule → String → List PortRange → Rule
set_ports r loc ranges =
    if loc == "src"
    then record r { src = record (r.src) { ports = ranges } }
    else record r { dst = record (r.dst) { ports = ranges } }

unfoldable pub set_port : Table → Rule → String → String → Option Rule
unfolding set_ports
set_port table r loc port =
    if port == "any" then some (set_ports r loc []) else elim (parse_port_ranges table port) [
      | none ↦ none
      | some ranges ↦ some (set_ports r loc ranges)
    ]

-- `multiPorts`.
unfoldable pub multi_ports : List PortRange → Bool
multi_ports [] = false
multi_ports (p ∷ []) = not (p.hi == p.lo)
multi_ports (p ∷ q ∷ ports) = true

-- `stampProto`.
unfoldable pub stamp_proto : List PortRange → String → List PortRange
stamp_proto ports proto =
    map (λ (p : PortRange). if p.proto == "" then record p { proto = proto } else p) ports

-- A text without its last character, and that character.
pub split_unit : String → Option (String × ℕ)
split_unit String.[] = none
split_unit (String.◌∷◌ c s) = elim (split_unit s) [
  | none ↦ some ("", code c)
  | some (digits, unit) ↦ some (String.◌∷◌ c digits, unit)
]

-- The seconds of a unit, for the letters that `expiryRe` has.
unfoldable pub unit_seconds : ℕ → Option ℕ
unit_seconds unit =
    if nat_eq unit b'm'
    then some 60
    else if nat_eq unit b'h'
    then some 3600
    else if nat_eq unit b'd'
    then some 86400
    else if nat_eq unit b's'
    then some 1
    else none

abbrev pub max_int64 : ℕ
max_int64 = 2 ^ 63 - 1

-- The number within 64 bits, and the check of the product.
pub in_seconds : ℕ → ℕ → Option ℕ
in_seconds n mult =
    if ltb max_int64 n then none else if ltb (max_int64 / mult) n then none else some (n * mult)

-- `parseExpiry`; `none` is its error.
pub parse_expiry : String → Option ℕ
unfolding split_unit unit_seconds in_seconds
parse_expiry s = elim (split_unit s) [
  | none ↦ none
  | some (digits, unit) ↦
      if is_number digits
      then elim (unit_seconds unit) [
        | none ↦ none
        | some mult ↦ in_seconds (number_from 0 digits) mult
      ]
      else none
]
