-- ===== src/Nft/Compiled.antt =====
-- internal/backend/nft/compile.go, `compiled`: the ruleset that is being built, and its errors. The
-- arenas only own memory; `setIndex` is found again from the sets, and is left out.
use better_firewall.Prelude.{
  ℕ, suc, Bool, false, ◌||◌, List, [], ◌∷◌, ◌++◌, String, Option, none, ◌==◌, String-eq,
  if◌then◌else◌,
}
use better_firewall.Nft.Expr.{Expr, Table, inet_table, Chain, NftRule, NftSet, SetElement}

pub data CompileError : Type 0 where
  -- the source of the set and the element
  bad_element : String → String → CompileError
  -- no error but a panic, an index out of range, at the name of an interface
  iface_panic : String → CompileError
  -- the id of the rule
  icmp_ipv4_only icmp_ipv6_only icmp_with_ports icmp_type_without_icmp : String → CompileError
  -- the id of the rule and the text that it refuses
  unknown_proto unknown_icmp_type unknown_action : String → String → CompileError
  -- the index of the NAT rule, from 0
  nat_to_dest_family : ℕ → CompileError
  -- the index and the text that it refuses
  nat_unknown_proto nat_to_dest nat_to_dest_port nat_unknown_kind : ℕ → String → CompileError

pub record Compiled : Type 0 where
  pub chains : List Chain
  -- the names that `chain` finds
  pub chain_index : List String
  pub sets : List (NftSet × List SetElement)
  -- the limit sets by name, with their ids
  pub limit_sets : List (String × ℕ)
  pub rules : List NftRule
  pub nat_tables : List Table
  pub set_id : ℕ
  -- names and ids
  pub threat_bans4 : Option (String × ℕ)
  pub threat_bans6 : Option (String × ℕ)

abbrev pub empty_compiled : Compiled
empty_compiled = record {
  chains = [];
  chain_index = [];
  sets = [];
  limit_sets = [];
  rules = [];
  nat_tables = [];
  set_id = 0;
  threat_bans4 = none;
  threat_bans6 = none;
}

-- `newSetID`: the id that it returns is the field afterwards.
abbrev pub new_set_id : Compiled → Compiled
new_set_id c = record c { set_id = suc c.set_id }

unfoldable pub is_named : String → List String → Bool
is_named name [] = false
is_named name (n ∷ ns) = n == name || is_named name ns

-- `chain`: a name that is not indexed becomes a regular chain.
unfoldable pub chain : String → Compiled → Compiled
unfolding is_named
chain name c = if is_named name c.chain_index then c else record c {
  chains = c.chains ++ (record { name = name; table = inet_table; base = none } ∷ []);
  chain_index = name ∷ c.chain_index;
}

-- `addRuleObject`.
abbrev pub add_rule_object : Table → String → List Expr → Compiled → Compiled
add_rule_object table name exprs c = record c {
  rules = c.rules ++ (record { table = table; chain = name; exprs = exprs } ∷ []);
}

-- `addRule`.
unfoldable pub add_rule : String → List Expr → Compiled → Compiled
unfolding chain
add_rule name exprs c = add_rule_object inet_table name exprs (chain name c)

-- Several calls of `addRule`.
unfoldable pub add_rules : List (String × List Expr) → Compiled → Compiled
unfolding add_rule
add_rules [] c = c
add_rules ((name, exprs) ∷ rules) c = add_rules rules (add_rule name exprs c)

-- `addSet`.
abbrev pub add_set : NftSet → List SetElement → Compiled → Compiled
add_set set elements c = record c { sets = c.sets ++ ((set, elements) ∷ []) }
