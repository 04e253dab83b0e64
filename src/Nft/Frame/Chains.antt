-- ===== src/Nft/Frame/Chains.antt =====
-- internal/backend/nft/compile.go, compile: the chains of a ruleset, before any rule of the user.
use better_firewall.Prelude.{
  ◌≡◌, refl, subst, arith, and_true, Bool-cases, inl, inr, Bool, true, false, ◌&&◌, List, [], ◌∷◌,
  ◌++◌, String, none, ◌==◌, String-eq, if◌then◌else◌, map, ends_char,
}
use better_firewall.Store.{Policies}
use better_firewall.Nft.Expr.{Expr, Chain, inet_table, counter, verdict, jump_to}
use better_firewall.Nft.Match.{nfproto, iface_match}
use better_firewall.Nft.Compiled.{is_named, chain, add_rule, add_rules}
use better_firewall.Nft.Fixed.{
  Direction, directions, regular_chain_names, extra_chain_names, policy_for,
}
use better_firewall.Nft.Compile.{
  base_chain, add_base_chain, add_base_chains, create_chains, chained, no_ipv6_rules,
}
use better_firewall.Nft.Frame.{all_within, jumps_in, inet_rules, Within}

-- The chains beside the base chains.
abbrev pub known_chains : List String
known_chains = regular_chain_names ++ extra_chain_names

abbrev pub base_names : List String
base_names = "input" ∷ "output" ∷ "forward" ∷ []

abbrev pub regular_chain : String → Chain
regular_chain name = record { name = name; table = inet_table; base = none }

-- The base chains with their policies, and the regular chains.
abbrev pub inet_chains : Policies → List Chain
inet_chains pol =
    map (λ (d : Direction). base_chain d (policy_for pol d.dir == "allow")) directions
    ++ map regular_chain known_chains

pub chained-chains : (pol : Policies) (ipv6 : Bool) → (chained pol ipv6).chains ≡ inet_chains pol
unfolding chained create_chains add_base_chains add_base_chain add_rules add_rule chain is_named
    no_ipv6_rules
chained-chains pol true = refl
chained-chains pol false = refl

-- The rules of the base chains.
abbrev pub base_rules : Bool → List Direction → List (String × List Expr)
base_rules ipv6 [] = []
base_rules ipv6 (d ∷ ds) =
    (if ipv6 then [] else no_ipv6_rules d)
    ++ map (λ target. (d.base, counter ∷ verdict (jump_to target) ∷ [])) d.jumps
    ++ base_rules ipv6 ds

pub chained-rules :
    (pol : Policies) (ipv6 : Bool)
    → (chained pol ipv6).rules ≡ inet_rules (base_rules ipv6 directions)
unfolding chained create_chains add_base_chains add_base_chain add_rules add_rule chain is_named
    no_ipv6_rules
chained-rules pol true = refl
chained-rules pol false = refl

-- The base chains hold rules that jump to the program's other chains.
pub base_rules-within :
    (ipv6 : Bool) → all_within base_names known_chains (base_rules ipv6 directions) ≡ true
unfolding all_within jumps_in is_named no_ipv6_rules nfproto iface_match ends_char
base_rules-within true = refl
base_rules-within false = refl

unfoldable pub subset : List String → List String → Bool
unfolding is_named
subset [] more = true
subset (n ∷ ns) more = is_named n more && subset ns more

pub Within-subset : (names more : List String) → subset names more ≡ true → Within names more
unfolding subset is_named
Within-subset [] more h n k = absurd (ground (arith, k))
Within-subset (m ∷ ns) more h n k =
    let (p, q) = and_true (is_named m more) (subset ns more) h in
    elim (Bool-cases (m == n)) [
      | inl e ↦ subst (λ x. is_named x more ≡ true) ((String-eq.same_iff m n).0 e) p
      | inr e ↦ Within-subset ns more q n (grind (arith, k, e))
    ]

chained-subset :
    (pol : Policies) (ipv6 : Bool)
    → subset (base_names ++ known_chains) (chained pol ipv6).chain_index ≡ true
unfolding chained create_chains add_base_chains add_base_chain add_rules add_rule chain is_named
    no_ipv6_rules subset
chained-subset pol true = refl
chained-subset pol false = refl

pub chained-Within :
    (pol : Policies) (ipv6 : Bool)
    → Within (base_names ++ known_chains) (chained pol ipv6).chain_index
chained-Within pol ipv6 = Within-subset _ _ (chained-subset pol ipv6)

pub chained-nat : (pol : Policies) (ipv6 : Bool) → (chained pol ipv6).nat_tables ≡ []
unfolding chained create_chains add_base_chains add_base_chain add_rules add_rule chain is_named
    no_ipv6_rules
chained-nat pol true = refl
chained-nat pol false = refl
