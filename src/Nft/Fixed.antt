-- ===== src/Nft/Fixed.antt =====
-- internal/backend/nft/compile.go: the chains and rules that every ruleset has.
pub mod Logging
pub mod Before
use better_firewall.Prelude.{
  ℕ, ◌+◌, Bool, true, false, not, ◌&&◌, ◌||◌, List, [], ◌∷◌, ◌++◌, String, Option, none, some, ◌==◌,
  String-eq, if◌then◌else◌, take, drop, map, to_lower,
}
use better_firewall.Net.{NetText}
use better_firewall.Store.{Policies}
use better_firewall.Nft.Expr.{
  Expr, Hook, hook_input, hook_output, hook_forward, reg_1, network, payload, set_lookup, counter,
  verdict, accept, drop_packet, back, jump_to,
}
use better_firewall.Nft.Match.{
  nfproto, l4proto, iif, oif, rh_type, ct_state, bit_invalid, bit_established, bit_related,
  icmp_type, hop_limit, addr_match, port_eq, fib_addr_type, limit3,
}

-- A row of `directions`.
pub record Direction : Type 0 where
  pub dir : String
  pub base : String
  pub hook : Hook
  -- the row of `baseJumpChains`
  pub jumps : List String

abbrev pub directions : List Direction
directions =
    record {
      dir = "in";
      base = "input";
      hook = hook_input;
      jumps =
          "bfw-before-logging-input" ∷ "bfw-before-input" ∷ "bfw-user-input" ∷ "bfw-after-input"
          ∷ "bfw-after-logging-input" ∷ "bfw-reject-input" ∷ "bfw-track-input" ∷ [];
    }
    ∷ record {
      dir = "out";
      base = "output";
      hook = hook_output;
      jumps =
          "bfw-before-logging-output" ∷ "bfw-before-output" ∷ "bfw-user-output" ∷ "bfw-after-output"
          ∷ "bfw-after-logging-output" ∷ "bfw-reject-output" ∷ "bfw-track-output" ∷ [];
    }
    ∷ record {
      dir = "routed";
      base = "forward";
      hook = hook_forward;
      jumps =
          "bfw-before-logging-forward" ∷ "bfw-before-forward" ∷ "bfw-user-forward"
          ∷ "bfw-after-forward" ∷ "bfw-after-logging-forward" ∷ "bfw-reject-forward"
          ∷ "bfw-track-forward" ∷ [];
    }
    ∷ []

-- `regularChainNames`, and the names behind them.
abbrev pub regular_chain_names : List String
regular_chain_names =
    "bfw-before-logging-input" ∷ "bfw-before-logging-output" ∷ "bfw-before-logging-forward"
    ∷ "bfw-before-input" ∷ "bfw-before-output" ∷ "bfw-before-forward" ∷ "bfw-user-input"
    ∷ "bfw-user-output" ∷ "bfw-user-forward" ∷ "bfw-after-input" ∷ "bfw-after-output"
    ∷ "bfw-after-forward" ∷ "bfw-after-logging-input" ∷ "bfw-after-logging-output"
    ∷ "bfw-after-logging-forward" ∷ "bfw-user-logging-input" ∷ "bfw-user-logging-output"
    ∷ "bfw-user-logging-forward" ∷ "bfw-reject-input" ∷ "bfw-reject-output" ∷ "bfw-reject-forward"
    ∷ "bfw-track-input" ∷ "bfw-track-output" ∷ "bfw-track-forward" ∷ "bfw-skip-to-policy-input"
    ∷ "bfw-skip-to-policy-output" ∷ "bfw-skip-to-policy-forward" ∷ []

abbrev pub extra_chain_names : List String
extra_chain_names =
    "bfw-not-local" ∷ "bfw-logging-deny" ∷ "bfw-logging-allow" ∷ "bfw-user-limit"
    ∷ "bfw-user-limit-accept" ∷ "bfw-user-egress" ∷ []

-- `policyFor`.
unfoldable pub policy_for : Policies → String → String
policy_for p dir = if dir == "out" then p.output else if dir == "routed" then p.forward else p.input

-- `overridePolicy`.
unfoldable pub override_policy : String → String → String
override_policy current raw =
    let word = to_lower raw in
    if word == "accept" || word == "allow"
    then "allow"
    else if word == "drop" || word == "deny"
    then "deny"
    else if word == "reject"
    then "reject"
    else current

-- `afterLoggingChainFor`.
unfoldable pub after_logging_chain_for : String → String
after_logging_chain_for dir =
    if dir == "out"
    then "bfw-after-logging-output"
    else if dir == "routed"
    then "bfw-after-logging-forward"
    else "bfw-after-logging-input"

-- One family of `addThreatBanRules`, with the name and id of its set.
unfoldable pub ban_rule : String → Bool → Option (String × ℕ) → List (String × List Expr)
unfolding nfproto
ban_rule ch six none = []
ban_rule ch six (some (name, id)) =
    (
      ch,
      nfproto six
          ++ ((if six then payload reg_1 network 8 16 else payload reg_1 network 12 4)
              ∷ set_lookup name id
              ∷ counter
              ∷ verdict drop_packet
              ∷ []),
    )
    ∷ []

-- `addThreatBanRules`.
abbrev pub threat_ban_rules :
    String → Option (String × ℕ) → Option (String × ℕ) → List (String × List Expr)
threat_ban_rules ch bans4 bans6 = ban_rule ch false bans4 ++ ban_rule ch true bans6

-- `icmpv6BeforeRule`; `none` for a hop limit of -1.
pub record Icmpv6BeforeRule : Type 0 where
  pub typ : ℕ
  pub hl : Option ℕ
  pub src_cidr : String

abbrev plain : ℕ → Icmpv6BeforeRule
plain typ = record { typ = typ; hl = none; src_cidr = "" }

abbrev hops : ℕ → Icmpv6BeforeRule
hops typ = record { typ = typ; hl = some 255; src_cidr = "" }

abbrev local : Option ℕ → ℕ → Icmpv6BeforeRule
local hl typ = record { typ = typ; hl = hl; src_cidr = "fe80::/10" }

abbrev pub before_icmpv6_rules : List Icmpv6BeforeRule
before_icmpv6_rules =
    plain 1
    ∷ plain 2
    ∷ plain 3
    ∷ plain 4
    ∷ plain 128
    ∷ hops 133
    ∷ hops 134
    ∷ hops 135
    ∷ hops 136
    ∷ hops 141
    ∷ hops 142
    ∷ local none 130
    ∷ local none 131
    ∷ local none 132
    ∷ local none 143
    ∷ hops 148
    ∷ hops 149
    ∷ local (some 1) 151
    ∷ local (some 1) 152
    ∷ local (some 1) 153
    ∷ []

abbrev pub before_icmpv6_output_rules : List Icmpv6BeforeRule
before_icmpv6_output_rules = take 5 before_icmpv6_rules ++ (plain 129 ∷ drop 5 before_icmpv6_rules)

abbrev pub before_icmpv6_forward_rules : List Icmpv6BeforeRule
before_icmpv6_forward_rules = plain 1 ∷ plain 2 ∷ plain 3 ∷ plain 4 ∷ plain 128 ∷ plain 129 ∷ []

abbrev pub accepted : List Expr → List Expr
accepted match = match ++ (counter ∷ verdict accept ∷ [])

abbrev pub dropped : List Expr → List Expr
dropped match = match ++ (counter ∷ verdict drop_packet ∷ [])

abbrev pub jumping : String → List Expr → List Expr
jumping name match = match ++ (counter ∷ verdict (jump_to name) ∷ [])

-- One rule for each chain of a list.
abbrev pub each : List String → List Expr → List (String × List Expr)
each names exprs = map (λ name. (name, exprs)) names

-- `compileAfter`; RTN_BROADCAST is 3.
unfoldable pub after_rules : List (String × List Expr)
unfolding nfproto fib_addr_type l4proto port_eq
after_rules =
    map (λ match. ("bfw-after-input", jumping "bfw-skip-to-policy-input" match))
      ((nfproto false ++ fib_addr_type 3)
        ∷ (nfproto false ++ l4proto 17 ++ port_eq "dport" 137)
        ∷ (nfproto false ++ l4proto 17 ++ port_eq "dport" 138)
        ∷ (nfproto false ++ l4proto 6 ++ port_eq "dport" 139)
        ∷ (nfproto false ++ l4proto 6 ++ port_eq "dport" 445)
        ∷ (nfproto false ++ l4proto 17 ++ port_eq "sport" 67 ++ port_eq "dport" 68)
        ∷ (nfproto true ++ l4proto 17 ++ port_eq "dport" 546)
        ∷ (nfproto true ++ l4proto 17 ++ port_eq "dport" 547)
        ∷ [])
