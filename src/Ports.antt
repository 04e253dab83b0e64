-- ===== src/Ports.antt =====
-- Port expressions: internal/cli/parser.go (`parsePortRanges`), internal/cli/status.go (`portStr`,
-- `portsEqual`), internal/appprof/appprof.go (`validPortList`, `parsePortItem`) and
-- internal/cli/commands_app.go (`specPorts`, `appRulesFromSpecs`).
pub mod Bounds
use Prim.Native.Char.{code}
use Prim.Native.String
use better_firewall.Prelude.{
  ℕ, zero, suc, ◌+◌, ◌-◌, ◌%◌, Bool, true, false, not, ◌&&◌, ◌||◌, List, [], ◌∷◌, ◌++◌, String,
  Option, none, some, ltb, leb, nat_eq, ◌==◌, ℕ-eq, String-eq, if◌then◌else◌, ◌<>◌, decimal,
  starts_char, ends_char, count_char, split_char, cut_char, is_digit, all_chars, is_number,
  number_from, map, length,
}
use better_firewall.Prelude.Int.{ℤ, pos, negsuc}
use better_firewall.Rule.{PortRange, Rule, AddrSpec, clone}
use better_firewall.Services.{Table, proto, portless_protocol, supported_protocol}

-- The characters of `\w`.
abbrev is_word : ℕ → Bool
is_word c = is_digit c || leb b'a' c && leb c b'z' || leb b'A' c && leb c b'Z' || nat_eq c b'_'

-- The regular expression `^\w[\w\-]+`, which looks at two characters only.
unfoldable pub is_service : String → Bool
is_service String.[] = false
is_service (String.◌∷◌ c String.[]) = false
is_service (String.◌∷◌ c (String.◌∷◌ d s)) =
    is_word (code c) && (is_word (code d) || nat_eq (code d) b'-')

-- A text that matches `^\d+:\d+$`, as its two numbers.
unfoldable pub range_parts : String → Option (ℕ × ℕ)
range_parts p =
    let (lo, behind) = cut_char b':' p in
    elim behind [
      | none ↦ none
      | some hi ↦
          if is_number lo && is_number hi then some (number_from 0 lo, number_from 0 hi) else none
    ]

-- The conversion `uint16(n)`.
unfoldable pub u16 : ℤ → ℕ
u16 (pos n) = n % 65536
u16 (negsuc n) = 65535 - n % 65536

abbrev pub port_range : ℕ → ℕ → PortRange
port_range lo hi = record { lo = lo; hi = hi; proto = "" }

unfoldable pub bad_range : ℕ → ℕ → Bool
bad_range lo hi = ltb lo 1 || ltb 65535 lo || ltb hi 1 || ltb 65535 hi || leb hi lo

-- One item of the list, `none` being the error.
unfoldable pub parse_item : Table → String → Option PortRange
parse_item table p = elim (range_parts p) [
  | some (lo, hi) ↦ if bad_range lo hi then none else some (port_range lo hi)
  | none ↦
      let n = number_from 0 p in
      if is_number p
      then if ltb n 1 || ltb 65535 n then none else some (port_range n n)
      else if is_service p
      then elim (proto table p) [ none ↦ none | some (m, _) ↦ some (port_range (u16 m) (u16 m)) ]
      else none
]

abbrev pub append_item : Option PortRange → Option (List PortRange) → Option (List PortRange)
append_item none rest = none
append_item (some r) none = none
append_item (some r) (some rs) = some (r ∷ rs)

unfoldable pub parse_items : Table → List String → Option (List PortRange)
parse_items table [] = some []
parse_items table (p ∷ ps) = append_item (parse_item table p) (parse_items table ps)

-- A separator at an end of the expression.
unfoldable pub loose_ends : String → Bool
loose_ends port =
    starts_char b',' port || starts_char b':' port || ends_char b',' port || ends_char b':' port

unfoldable pub parse_port_ranges : Table → String → Option (List PortRange)
unfolding loose_ends
parse_port_ranges table port =
    if loose_ends port
    then none
    else if ltb 14 (count_char b',' port + count_char b':' port)
    then none
    else parse_items table (split_char b',' port)

-- appprof.go: `validPortList`, whose error is `false`.
pub valid_item : Table → String → Bool
valid_item table p = elim (range_parts p) [
  | some (lo, hi) ↦ if bad_range lo hi then false else true
  | none ↦
      let n = number_from 0 p in
      if is_number p
      then if ltb n 1 || ltb 65535 n then false else true
      else if is_service p
      then elim (proto table p) [ none ↦ false | some _ ↦ true ]
      else false
]

pub valid_items : Table → List String → Bool
valid_items table [] = true
valid_items table (p ∷ ps) = if valid_item table p then valid_items table ps else false

pub valid_port_list : Table → String → Bool
unfolding loose_ends
valid_port_list table ports =
    if ports == "any"
    then true
    else if loose_ends ports
    then false
    else if ltb 14 (count_char b',' ports + count_char b':' ports)
    then false
    else valid_items table (split_char b',' ports)

-- One item of an application profile.
pub record PortSpec : Type 0 where
  pub ports : String
  pub proto : String

abbrev contains_any : String → Bool
contains_any ports =
    not (nat_eq (count_char b':' ports) 0) || not (nat_eq (count_char b',' ports) 0)

-- The checks of `parsePortItem` on the two parts of an item.
check_spec : Table → PortSpec → Option PortSpec
check_spec table spec =
    if not (spec.proto == "any") && not (supported_protocol spec.proto)
    then none
    else if spec.proto == "any" && contains_any spec.ports
    then none
    else if valid_port_list table spec.ports
    then some spec
    else none

unfoldable pub parse_port_item : Table → List String → Option PortSpec
unfolding check_spec
parse_port_item table (ports ∷ []) = check_spec table (record { ports = ports; proto = "any" })
parse_port_item table (ports ∷ p ∷ []) =
    if portless_protocol p then none else check_spec table (record { ports = ports; proto = p })
parse_port_item table parts = none

abbrev stamp : String → PortRange → PortRange
stamp p r = record r { proto = p }

unfoldable pub spec_ports : Table → PortSpec → List PortRange
spec_ports table spec =
    if spec.ports == "any" || spec.ports == ""
    then []
    else elim (parse_port_ranges table spec.ports) [
      | none ↦ []
      | some prs ↦ map (stamp spec.proto) prs
    ]

-- The closure `mk` of `appRulesFromSpecs`.
unfoldable pub make_rule : Table → Rule → PortSpec → PortSpec → Rule
make_rule table tmpl ds ss =
    let nr = clone tmpl in
    let dst =
      if not (ds.ports == "") then record (nr.dst) { ports = spec_ports table ds } else nr.dst in
    let src =
      if not (ss.ports == "") then record (nr.src) { ports = spec_ports table ss } else nr.src in
    record nr {
      dst = dst;
      src = src;
      proto =
          if not (ss.proto == "any")
          then ss.proto
          else if not (ds.proto == "any")
          then ds.proto
          else "any";
    }

abbrev no_spec : PortSpec
no_spec = record { ports = ""; proto = "any" }

pair_specs : Table → Rule → Bool → List PortSpec → List PortSpec → List Rule
pair_specs table tmpl same [] sspecs = []
pair_specs table tmpl same (ds ∷ dspecs) sspecs =
    (if same
      then make_rule table tmpl ds ds ∷ []
      else map (λ ss. make_rule table tmpl ds ss) sspecs)
    ++ pair_specs table tmpl same dspecs sspecs

unfoldable pub app_rules_from_specs : Table → Rule → List PortSpec → List PortSpec → List Rule
unfolding pair_specs
app_rules_from_specs table tmpl [] sspecs = map (λ ss. make_rule table tmpl no_spec ss) sspecs
app_rules_from_specs table tmpl (d ∷ dspecs) [] =
    map (λ ds. make_rule table tmpl ds no_spec) (d ∷ dspecs)
app_rules_from_specs table tmpl (d ∷ dspecs) (s ∷ sspecs) =
    pair_specs table tmpl (not (tmpl.dapp == "") && tmpl.dapp == tmpl.sapp) (d ∷ dspecs)
      (s ∷ sspecs)

-- status.go: `portStr`; `first` is `i == 0`.
unfoldable pub port_strs : Bool → List PortRange → String
port_strs first [] = ""
port_strs first (p ∷ ps) =
    (if first then "" else ",")
    <> decimal p.lo
    <> (if not (p.hi == p.lo) then ":" <> decimal p.hi else "")
    <> port_strs false ps

unfoldable pub port_str : List PortRange → String
unfolding port_strs
port_str [] = "any"
port_str (p ∷ ps) = port_strs true (p ∷ ps)

-- status.go: `portsEqual`, the loop, on lists of one length.
pub ports_equal_from : List PortRange → List PortRange → Bool
ports_equal_from [] bs = true
ports_equal_from (a ∷ as') [] = true
ports_equal_from (a ∷ as') (b ∷ bs) =
    if not (a.lo == b.lo) || not (a.hi == b.hi) then false else ports_equal_from as' bs

unfoldable pub ports_equal : List PortRange → List PortRange → Bool
unfolding ports_equal_from
ports_equal as' bs = if not (length as' == length bs) then false else ports_equal_from as' bs
