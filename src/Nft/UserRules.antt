-- ===== src/Nft/UserRules.antt =====
-- internal/backend/nft/compile.go, compileRule: the kernel rules of one rule of the firewall.
use better_firewall.Prelude.{
  ℕ, suc, Bool, true, false, not, ◌&&◌, ◌||◌, List, [], ◌∷◌, ◌++◌, String, Option, none, some, ◌==◌,
  String-eq, if◌then◌else◌, ◌<>◌,
}
use better_firewall.Prelude.Int.{ℤ}
use better_firewall.Prelude.Result.{Result, ok, err, ◌>>=◌}
use better_firewall.Net.{NetText}
use better_firewall.Rule.{AddrSpec, Rule, any, expired}
use better_firewall.Nft.Expr.{
  Expr, reg_1, reg_2, reg32_00, reg32_01, network, transport, payload, set_lookup, dynset_update,
  immediate, counter, verdict, accept, drop_packet, back, jump_to, reject_port, log_prefix, NftSet,
  ipv4_addr_service, ipv6_addr_service,
}
use better_firewall.Nft.Match.{
  nfproto, addr_payload, addr_match, ct_state, bit_new, limit3, log_prefix_of,
}
use better_firewall.Nft.Compiled.{
  Compiled, CompileError, icmp_ipv4_only, icmp_ipv6_only, icmp_with_ports, unknown_action,
  new_set_id, add_rules, add_set,
}
use better_firewall.Nft.Ifaces.{both_ifaces}
use better_firewall.Nft.Rules.{
  user_chain_for, user_logging_chain_for, proto_variants, append_port_exprs, is_port_proto, is_icmp,
  no_ports, proto_exprs, icmp_exprs,
}

abbrev pub with_family : Bool → String → String
with_family six name = if six then name <> "6" else name

abbrev pub limit_set : Bool → String → ℕ → NftSet
limit_set six name id = record {
  name = name;
  id = id;
  key_type = if six then ipv6_addr_service else ipv4_addr_service;
  interval = false;
  anonymous = false;
  constant = false;
  dynamic = true;
  timeout = 30;
  size = 65535;
}

unfoldable pub find_limit : String → List (String × ℕ) → Option ℕ
find_limit name [] = none
find_limit name ((n, id) ∷ rest) = if n == name then some id else find_limit name rest

abbrev new_limit_set : Bool → String → Compiled → ℕ × Compiled
new_limit_set six name c =
    let id = suc c.set_id in
    let d = add_set (limit_set six name id) [] (new_set_id c) in
    (id, record d { limit_sets = (name, id) ∷ d.limit_sets })

-- The id of the limit set of a name; a set that is not there is added.
unfoldable pub ensure_limit_set : Bool → String → Compiled → ℕ × Compiled
unfolding find_limit
ensure_limit_set six name c = elim (find_limit name c.limit_sets) [
  | some id ↦ (id, c)
  | none ↦ new_limit_set six name c
]

-- The keys of the meter: the source address and the destination port, or 0.
unfoldable pub meter_keys : Bool → String → List Expr
meter_keys six proto =
    (if six then payload reg_1 network 8 16 else payload reg32_00 network 12 4)
    ∷ (if is_port_proto proto
        then payload (if six then reg_2 else reg32_01) transport 2 2
        else immediate (if six then reg_2 else reg32_01) (0 ∷ 0 ∷ []))
    ∷ []

-- `compileLimit`; 6 is the rate that the meter is asked for.
unfoldable pub compile_limit : Rule → String → Bool → List Expr → String → Compiled → Compiled
unfolding ensure_limit_set meter_keys ct_state
compile_limit r proto six match user_chain c =
    let name = with_family six ("bfw_limit_" <> r.id) in
    let (id, d) = ensure_limit_set six name c in
    add_rules
      ((
        user_chain,
        match
            ++ ct_state bit_new
            ++ meter_keys six proto
            ++ (dynset_update (if six then reg_1 else reg32_00) name id 30 6
                ∷ counter
                ∷ verdict (jump_to "bfw-user-limit")
                ∷ []),
      )
        ∷ (user_chain, match ++ (counter ∷ verdict (jump_to "bfw-user-limit-accept") ∷ []))
        ∷ [])
      d

-- The rules of `compileRule` for a logged rule.
unfoldable pub logging_rules : Rule → List Expr → List (String × List Expr)
unfolding ct_state log_prefix_of user_chain_for user_logging_chain_for
logging_rules r match =
    let log_chain = user_logging_chain_for r.direction in
    let seen = match ++ (if r.log == "log" then ct_state bit_new else []) in
    if r.log == ""
    then []
    else (log_chain, seen ++ (limit3 ∷ log_prefix (log_prefix_of r.action) ∷ []))
      ∷ (log_chain, seen ++ (counter ∷ verdict back ∷ []))
      ∷ (user_chain_for r.direction, match ++ (counter ∷ verdict (jump_to log_chain) ∷ []))
      ∷ []

-- The switch of `compileRule` on the action.
unfoldable pub compile_action :
    Rule → String → Bool → List Expr → Compiled → Result CompileError Compiled
unfolding compile_limit user_chain_for
compile_action r proto six match c =
    let user_chain = user_chain_for r.direction in
    let last : Expr → Compiled =
      λ v. add_rules ((user_chain, match ++ (counter ∷ v ∷ [])) ∷ []) c in
    if r.action == "allow"
    then ok (last (verdict accept))
    else if r.action == "deny"
    then ok (last (verdict drop_packet))
    else if r.action == "reject"
    then ok (last reject_port)
    else if r.action == "limit"
    then ok (compile_limit r proto six match user_chain c)
    else err (unknown_action r.id r.action)

-- The errors at the top of `ruleMatch`, and its first expressions.
unfoldable pub family_match : Rule → String → Bool → Result CompileError (List Expr)
unfolding nfproto
family_match r proto six =
    if proto == "icmp" && six
    then err (icmp_ipv4_only r.id)
    else if proto == "icmpv6" && not six
    then err (icmp_ipv6_only r.id)
    else if is_icmp proto && not (no_ports r.src.ports && no_ports r.dst.ports)
    then err (icmp_with_ports r.id)
    else ok (nfproto six)

-- The ports of `ruleMatch`, which only tcp and udp have.
unfoldable pub both_ports : Rule → String → Compiled → List Expr × Compiled
unfolding append_port_exprs
both_ports r proto c =
    let (src, d) = append_port_exprs r.src.ports "sport" proto c in
    let (dst, e) = append_port_exprs r.dst.ports "dport" proto d in
    if is_port_proto proto then (src ++ dst, e) else ([], c)

module _ (net : NetText) where
  -- `appendEndpointAddr`: a named set is looked up by its name alone.
  unfoldable pub endpoint_addr : AddrSpec → String → Bool → List Expr
  unfolding addr_match addr_payload
  endpoint_addr a which six =
      if not (a.set == "")
      then addr_payload which six ∷ set_lookup (with_family six ("bfw_set_" <> a.set)) 0 ∷ []
      else if any a
      then []
      else addr_match net which a.ip six

  -- `ruleMatch`.
  unfoldable pub rule_match :
      Rule → String → Bool → Compiled → Result CompileError (List Expr × Compiled)
  unfolding family_match proto_exprs icmp_exprs endpoint_addr both_ports both_ifaces
  rule_match r proto six c = family_match r proto six >>= λ family.
      both_ifaces r.iface_in r.iface_out >>= λ ifaces. proto_exprs r proto >>= λ l4.
      icmp_exprs r proto >>= λ icmp.
      let (ports, d) = both_ports r proto c in
      ok (
        family
            ++ ifaces
            ++ l4
            ++ icmp
            ++ endpoint_addr r.src "saddr" six
            ++ endpoint_addr r.dst "daddr" six
            ++ ports,
        d,
      )

  -- One pass of the loop of `compileRule`.
  unfoldable pub compile_variant : Rule → Bool → String → Compiled → Result CompileError Compiled
  unfolding rule_match logging_rules compile_action
  compile_variant r six proto c = rule_match r proto six c >>= λ m.
      compile_action r proto six m.0 (add_rules (logging_rules r m.0) m.1)

  unfoldable pub compile_variants :
      Rule → Bool → List String → Compiled → Result CompileError Compiled
  unfolding compile_variant
  compile_variants r six [] c = ok c
  compile_variants r six (proto ∷ protos) c =
      compile_variant r six proto c >>= λ d. compile_variants r six protos d

  -- `compileRule`.
  unfoldable pub compile_rule : Rule → Bool → ℤ → Compiled → Result CompileError Compiled
  unfolding compile_variants proto_variants
  compile_rule r six now c =
      if r.disabled || expired r now then ok c else compile_variants r six (proto_variants r) c

  -- The loop of `compile` over the rules of one family.
  unfoldable pub compile_rules : List Rule → Bool → ℤ → Compiled → Result CompileError Compiled
  compile_rules [] six now c = ok c
  compile_rules (r ∷ rs) six now c = compile_rule r six now c >>= λ d. compile_rules rs six now d
