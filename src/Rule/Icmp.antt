-- ===== src/Rule/Icmp.antt =====
-- internal/rule/icmp.go: the names of ICMP types.
use better_firewall.Prelude.{
  ℕ, ◌^◌, ◌&&◌, List, [], ◌∷◌, String, Option, none, some, ltb, ◌==◌, String-eq, if◌then◌else◌,
  is_number, number_from, decimal, to_lower,
}

abbrev pub icmp_types_v4 : List (String × ℕ)
icmp_types_v4 =
    ("echo-reply", 0)
    ∷ ("destination-unreachable", 3)
    ∷ ("source-quench", 4)
    ∷ ("redirect", 5)
    ∷ ("echo-request", 8)
    ∷ ("router-advertisement", 9)
    ∷ ("router-solicitation", 10)
    ∷ ("time-exceeded", 11)
    ∷ ("parameter-problem", 12)
    ∷ ("timestamp-request", 13)
    ∷ ("timestamp-reply", 14)
    ∷ ("information-request", 15)
    ∷ ("info-request", 15)
    ∷ ("information-reply", 16)
    ∷ ("info-reply", 16)
    ∷ ("address-mask-request", 17)
    ∷ ("address-mask-reply", 18)
    ∷ []

abbrev pub icmp_types_v6 : List (String × ℕ)
icmp_types_v6 =
    ("destination-unreachable", 1)
    ∷ ("packet-too-big", 2)
    ∷ ("time-exceeded", 3)
    ∷ ("parameter-problem", 4)
    ∷ ("echo-request", 128)
    ∷ ("echo-reply", 129)
    ∷ ("mld-listener-query", 130)
    ∷ ("mld-listener-report", 131)
    ∷ ("mld2-listener-report", 143)
    ∷ ("mldv2-listener-report", 143)
    ∷ ("mld-listener-done", 132)
    ∷ ("router-solicitation", 133)
    ∷ ("router-advertisement", 134)
    ∷ ("nd-router-solicit", 133)
    ∷ ("nd-router-advert", 134)
    ∷ ("neighbour-solicitation", 135)
    ∷ ("neighbor-solicitation", 135)
    ∷ ("nd-neighbor-solicit", 135)
    ∷ ("neighbour-advertisement", 136)
    ∷ ("neighbor-advertisement", 136)
    ∷ ("nd-neighbor-advert", 136)
    ∷ ("redirect", 137)
    ∷ ("router-renumbering", 138)
    ∷ ("node-information-query", 139)
    ∷ ("node-information-reply", 140)
    ∷ ("inverse-neighbor-discovery-solicitation", 141)
    ∷ ("ind-neighbor-solicit", 141)
    ∷ ("inverse-neighbor-discovery-advertisement", 142)
    ∷ ("ind-neighbor-advert", 142)
    ∷ ("home-agent-address-discovery-request", 144)
    ∷ ("home-agent-address-discovery-reply", 145)
    ∷ ("mobile-prefix-solicitation", 146)
    ∷ ("mobile-prefix-advertisement", 147)
    ∷ ("certification-path-solicitation", 148)
    ∷ ("certification-path-advertisement", 149)
    ∷ ("multicast-router-advertisement", 151)
    ∷ ("multicast-router-solicitation", 152)
    ∷ ("multicast-router-termination", 153)
    ∷ []

-- strconv.ParseUint in base 10; `none` is its error.
unfoldable pub parse_uint : ℕ → String → Option ℕ
parse_uint bits s =
    if is_number s && ltb (number_from 0 s) (2 ^ bits) then some (number_from 0 s) else none

unfoldable pub lookup_type : String → List (String × ℕ) → Option ℕ
lookup_type token [] = none
lookup_type token ((name, n) ∷ names) = if name == token then some n else lookup_type token names

-- `ICMPTypeNumber` behind the choice of the names.
unfoldable pub type_in : List (String × ℕ) → String → Option String
unfolding lookup_type parse_uint
type_in names token = elim (parse_uint 8 token) [
  | some n ↦ some (decimal n)
  | none ↦ elim (lookup_type (to_lower token) names) [ none ↦ none | some n ↦ some (decimal n) ]
]

-- `ICMPTypeNumber`; `none` is its error.
unfoldable pub icmp_type_number : String → String → Option String
unfolding type_in
icmp_type_number proto token =
    if proto == "icmp"
    then type_in icmp_types_v4 token
    else if proto == "icmpv6"
    then type_in icmp_types_v6 token
    else none
