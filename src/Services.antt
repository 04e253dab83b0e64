-- ===== src/Services.antt =====
-- internal/services/services.go: service names, their ports and protocols. Reading the file is left
-- out: the table is computed from its lines, or is the built-in one if there is no file.
pub mod Laws
use Prim.Native.Char.{code}
use Prim.Native.String
use better_firewall.Prelude.{
  ℕ, zero, suc, nat_eq, Bool, true, false, not, ◌&&◌, ◌||◌, List, [], ◌∷◌, String, Option, none,
  some, leb, ◌==◌, String-eq, if◌then◌else◌, starts_char, split_char, cut_char, is_number,
  number_from, fields, to_lower, length,
}
use better_firewall.Prelude.Int.{ℤ, pos, negsuc}

pub record Entry : Type 0 where
  pub port : ℤ
  pub tcp : Bool
  pub udp : Bool
  pub other : Bool

abbrev pub Table : Type 0
Table = List (String × Entry)

-- `table[name]`.
unfoldable pub lookup : String → Table → Option Entry
lookup name [] = none
lookup name ((k, e) ∷ t) = if k == name then some e else lookup name t

-- `table[name] = e`.
unfoldable pub store : String → Entry → Table → Table
store name e [] = (name, e) ∷ []
store name e ((k, d) ∷ t) = if k == name then (k, e) ∷ t else (k, d) ∷ store name e t

abbrev entry : ℕ → Bool → Bool → Entry
entry port tcp udp = record { port = pos port; tcp = tcp; udp = udp; other = false }

unfoldable pub fallback : Table
fallback =
    ("ssh", entry 22 true false)
    ∷ ("http", entry 80 true false)
    ∷ ("https", entry 443 true false)
    ∷ ("smtp", entry 25 true false)
    ∷ ("domain", entry 53 true true)
    ∷ ("dns", entry 53 true true)
    ∷ ("ntp", entry 123 false true)
    ∷ ("ftp", entry 21 true false)
    ∷ ("tftp", entry 69 false true)
    ∷ ("imap", entry 143 true false)
    ∷ ("pop3", entry 110 true false)
    ∷ ("snmp", entry 161 false true)
    ∷ ("ldap", entry 389 true true)
    ∷ ("syslog", entry 514 false true)
    ∷ []

-- The sign of a number, and what follows it.
unfoldable pub split_sign : String → Bool × String
split_sign String.[] = (false, "")
split_sign (String.◌∷◌ c s) =
    if nat_eq (code c) b'-'
    then (true, s)
    else if nat_eq (code c) b'+'
    then (false, s)
    else (false, String.◌∷◌ c s)

abbrev pub negate : ℕ → ℤ
negate zero = pos 0
negate (suc n) = negsuc n

-- strconv.Atoi: an optional sign and digits, within 64 bits.
unfoldable pub atoi : String → Option ℤ
unfolding split_sign
atoi s =
    let (sign, digits) = split_sign s in
    let n = number_from 0 digits in
    if not (is_number digits)
    then none
    else if sign
    then if leb n 9223372036854775808 then some (negate n) else none
    else if leb n 9223372036854775807
    then some (pos n)
    else none

-- The protocol of a line is noted on the entry.
unfoldable pub note_proto : String → Entry → Entry
note_proto proto e =
    if proto == "tcp"
    then record e { tcp = true }
    else if proto == "udp"
    then record e { udp = true }
    else record e { other = true }

abbrev new_entry : ℤ → Entry
new_entry port = record { port = port; tcp = false; udp = false; other = false }

unfoldable pub add_name : ℤ → String → Table → String → Table
add_name port proto table name = elim (lookup name table) [
  | none ↦ store name (note_proto proto (new_entry port)) table
  | some e ↦ store name (note_proto proto e) table
]

unfoldable pub add_names : ℤ → String → Table → List String → Table
add_names port proto table [] = table
add_names port proto table (name ∷ names) =
    add_names port proto (add_name port proto table name) names

-- One line of the file: the name, `port/protocol`, and other names.
unfoldable pub load_fields : Table → List String → Table
load_fields table [] = table
load_fields table (name ∷ []) = table
load_fields table (name ∷ pp ∷ aliases) =
    let (port, behind) = cut_char b'/' pp in
    elim behind [
      | none ↦ table
      | some proto ↦ elim (atoi port) [
        | none ↦ table
        | some p ↦ add_names p (to_lower proto) table (name ∷ aliases)
      ]
    ]

abbrev strip_comment : String → String
strip_comment line = (cut_char b'#' line).0

unfoldable pub load_lines : Table → List String → Table
load_lines table [] = table
load_lines table (line ∷ lines) = load_lines (load_fields table (fields (strip_comment line))) lines

-- `load`: the table of a file that was read, or the built-in one.
unfoldable pub load : Option (List String) → Table
load none = fallback
load (some lines) = load_lines [] lines

-- The protocol that an entry stands for.
unfoldable pub entry_proto : Entry → String
entry_proto e =
    if e.tcp && e.udp then "any" else if e.tcp then "tcp" else if e.udp then "udp" else ""

-- `Proto`; `none` is the error for an unknown name.
unfoldable pub proto : Table → String → Option (ℤ × String)
proto table name = elim (lookup name table) [ none ↦ none | some e ↦ some (e.port, entry_proto e) ]

unfoldable pub exists : Table → String → Bool
exists table name = elim (lookup name table) [ none ↦ false | some e ↦ true ]

unfoldable pub supported_protocol : String → Bool
supported_protocol p =
    p == "tcp"
    || p == "udp"
    || p == "ipv6"
    || p == "esp"
    || p == "ah"
    || p == "igmp"
    || p == "gre"
    || p == "vrrp"
    || p == "icmp"
    || p == "icmpv6"

unfoldable pub portless_protocol : String → Bool
portless_protocol p =
    p == "ipv6"
    || p == "esp"
    || p == "ah"
    || p == "igmp"
    || p == "gre"
    || p == "vrrp"
    || p == "icmp"
    || p == "icmpv6"

unfoldable pub ipv4_only_protocol : String → Bool
ipv4_only_protocol p = p == "ipv6" || p == "igmp" || p == "icmp"
