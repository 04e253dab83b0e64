-- ===== src/Nft/Compile.antt =====
-- internal/backend/nft/compile.go, compile: the whole ruleset of a state. The clock and the values of
-- /etc/default/better-firewall are arguments.
use better_firewall.Prelude.{
  Bool, true, false, List, [], ◌∷◌, ◌++◌, String, Option, none, some, ◌==◌, String-eq,
  if◌then◌else◌, map, ◌<>◌, equal_fold,
}
use better_firewall.Prelude.Int.{ℤ}
use better_firewall.Prelude.Result.{Result, ok, ◌>>=◌}
use better_firewall.Net.{NetText}
use better_firewall.Store.{State, Policies}
use better_firewall.Nft.Expr.{
  Expr, Chain, inet_table, counter, verdict, accept, jump_to, reject_port, limit, log_prefix,
}
use better_firewall.Nft.Match.{
  nfproto, iif, oif, iface_match, l4proto, ct_state, bit_new, policy_verdict,
}
use better_firewall.Nft.Compiled.{Compiled, CompileError, empty_compiled, chain, add_rules}
use better_firewall.Nft.Sets.{compile_named_sets, compile_threat_bans}
use better_firewall.Nft.UserRules.{compile_rules}
use better_firewall.Nft.Fixed.{
  Direction, directions, regular_chain_names, extra_chain_names, policy_for, override_policy,
  after_rules, accepted, dropped,
}
use better_firewall.Nft.Fixed.Before.{before_rules}
use better_firewall.Nft.Fixed.Logging.{logging_chains}
use better_firewall.Nft.Nat.{compile_nat}

-- The map of the configuration values.
unfoldable pub etc_value : String → List (String × String) → Option String
etc_value key [] = none
etc_value key ((k, v) ∷ etc) = if k == key then some v else etc_value key etc

abbrev override : String → Option String → String
override current none = current
override current (some v) = override_policy current v

-- The policies behind the overrides and panic.
unfoldable pub effective_policies : State → List (String × String) → Policies
unfolding etc_value override_policy
effective_policies st etc =
    if st.panic then record { input = "deny"; output = "deny"; forward = "deny" } else record {
      input = override st.policies.input (etc_value "DEFAULT_INPUT_POLICY" etc);
      output = override st.policies.output (etc_value "DEFAULT_OUTPUT_POLICY" etc);
      forward = override st.policies.forward (etc_value "DEFAULT_FORWARD_POLICY" etc);
    }

abbrev ipv6_value : Bool → Option String → Bool
ipv6_value stored none = stored
ipv6_value stored (some v) = equal_fold v "yes"

unfoldable pub effective_ipv6 : State → List (String × String) → Bool
unfolding etc_value equal_fold
effective_ipv6 st etc = ipv6_value st.ipv6 (etc_value "IPV6" etc)

abbrev pub effective_level : State → String
effective_level st = if st.logging == "" then "low" else st.logging

abbrev pub base_chain : Direction → Bool → Chain
base_chain d accepts = record { name = d.base; table = inet_table; base = some (d.hook, accepts) }

-- Without IPv6, all of it is dropped but loopback.
unfoldable pub no_ipv6_rules : Direction → List (String × List Expr)
unfolding nfproto iface_match
no_ipv6_rules d =
    (if d.dir == "in"
      then (d.base, accepted (nfproto true ++ iif "lo")) ∷ []
      else if d.dir == "out"
      then (d.base, accepted (nfproto true ++ oif "lo")) ∷ []
      else [])
    ++ ((d.base, dropped (nfproto true)) ∷ [])

-- The base chain of one direction.
unfoldable pub add_base_chain : Policies → Bool → Direction → Compiled → Compiled
unfolding policy_for no_ipv6_rules add_rules
add_base_chain pol ipv6 d c =
    add_rules
      ((if ipv6 then [] else no_ipv6_rules d)
        ++ map (λ target. (d.base, counter ∷ verdict (jump_to target) ∷ [])) d.jumps)
      (record c {
        chains = c.chains ++ (base_chain d (policy_for pol d.dir == "allow") ∷ []);
        chain_index = d.base ∷ c.chain_index;
      })

unfoldable pub add_base_chains : Policies → Bool → List Direction → Compiled → Compiled
unfolding add_base_chain
add_base_chains pol ipv6 [] c = c
add_base_chains pol ipv6 (d ∷ ds) c = add_base_chains pol ipv6 ds (add_base_chain pol ipv6 d c)

unfoldable pub create_chains : List String → Compiled → Compiled
unfolding chain
create_chains [] c = c
create_chains (name ∷ names) c = create_chains names (chain name c)

-- All chains, and the rules of the base chains.
unfoldable pub chained : Policies → Bool → Compiled
unfolding create_chains add_base_chains
chained pol ipv6 =
    create_chains (regular_chain_names ++ extra_chain_names)
      (add_base_chains pol ipv6 directions empty_compiled)

-- The reject, track and skip-to-policy chains of one direction.
unfoldable pub direction_rules : Policies → Direction → List (String × List Expr)
unfolding policy_for l4proto ct_state policy_verdict
direction_rules pol d =
    let p = policy_for pol d.dir in
    (if p == "reject" then ("bfw-reject-" <> d.base, counter ∷ reject_port ∷ []) ∷ [] else [])
    ++ (if p == "allow"
        then ("bfw-track-" <> d.base, accepted (l4proto 6 ++ ct_state bit_new))
          ∷ ("bfw-track-" <> d.base, accepted (l4proto 17 ++ ct_state bit_new))
          ∷ []
        else [])
    ++ (("bfw-skip-to-policy-" <> d.base, counter ∷ policy_verdict p ∷ []) ∷ [])

unfoldable pub policy_rules : Policies → List Direction → List (String × List Expr)
unfolding direction_rules
policy_rules pol [] = []
policy_rules pol (d ∷ ds) = direction_rules pol d ++ policy_rules pol ds

-- The chains of limit rules.
abbrev pub user_limit_rules : String → List (String × List Expr)
user_limit_rules level =
    ("bfw-user-limit-accept", counter ∷ verdict accept ∷ [])
    ∷ ((if level == "off"
          then []
          else ("bfw-user-limit", limit 3 5 false ∷ log_prefix "[BFW LIMIT BLOCK] " ∷ []) ∷ [])
        ++ (("bfw-user-limit", counter ∷ reject_port ∷ []) ∷ []))

abbrev pub panic_compiled : Compiled
panic_compiled = record empty_compiled { chains = map (λ d. base_chain d false) directions }

module _ (net : NetText) where
  -- The rules between the threat bans and the named sets.
  unfoldable pub fixed_rules : Policies → String → Compiled → List (String × List Expr)
  unfolding before_rules after_rules policy_rules logging_chains
  fixed_rules pol level c =
      before_rules net c.threat_bans4 c.threat_bans6
      ++ after_rules
      ++ (("bfw-before-output", counter ∷ verdict (jump_to "bfw-user-egress") ∷ []) ∷ [])
      ++ policy_rules pol directions
      ++ user_limit_rules level
      ++ logging_chains level pol

  -- `compile` without panic, up to the NAT tables.
  unfoldable pub compile_inet : ℤ → State → List (String × String) → Result CompileError Compiled
  unfolding chained compile_threat_bans fixed_rules add_rules compile_named_sets compile_rules
      effective_policies effective_ipv6
  compile_inet now st etc =
      let pol = effective_policies st etc in
      compile_threat_bans net now st.bans (chained pol (effective_ipv6 st etc)) >>= λ c.
      compile_named_sets net st.sets (add_rules (fixed_rules pol (effective_level st) c) c) >>= λ d.
      compile_rules net st.rules4 false now d >>= λ e. compile_rules net st.rules6 true now e

  -- `compile` without panic.
  unfoldable pub compile_live : ℤ → State → List (String × String) → Result CompileError Compiled
  unfolding compile_inet compile_nat
  compile_live now st etc = compile_inet now st etc >>= λ c. compile_nat net st.nat c

  -- `compile`: panic leaves three base chains that drop everything.
  unfoldable pub compile : ℤ → State → List (String × String) → Result CompileError Compiled
  compile now st etc = if st.panic then ok panic_compiled else compile_live now st etc
