-- ===== src/Nft/Frame/User.antt =====
-- internal/backend/nft/compile.go, compileRule: a rule of the firewall adds kernel rules to its user
-- chain and its logging chain alone.
use better_firewall.Prelude.{
  ℕ, ◌≡◌, refl, Bool, true, false, ◌||◌, List, [], ◌∷◌, ◌++◌, String, ◌==◌, String-eq,
  if◌then◌else◌, Bool-cases, inl, inr, Option-cases, ◌<>◌,
}
use better_firewall.Prelude.Int.{ℤ}
use better_firewall.Prelude.Result.{ok, err, Ensures, Ensures-bind, Ensures-map}
use better_firewall.Net.{NetText}
use better_firewall.Rule.{Rule, expired}
use better_firewall.Nft.Expr.{
  Expr, Reg, reg_1, reg32_00, dynset_update, accept, drop_packet, counter, verdict, back, jump_to,
  reject_port, log_prefix,
}
use better_firewall.Nft.Match.{ct_state, bit_new, limit3, log_prefix_of}
use better_firewall.Nft.Compiled.{Compiled, CompileError, unknown_action, is_named, add_rules}
use better_firewall.Nft.Rules.{
  user_chain_for, user_logging_chain_for, proto_variants, is_port_proto,
}
use better_firewall.Nft.UserRules.{
  with_family, find_limit, ensure_limit_set, meter_keys, compile_limit, logging_rules,
  compile_action, rule_match, compile_variant, compile_variants, compile_rule,
}
use better_firewall.Nft.Frame.{
  jump_in, Within-same, jumps_in, all_within, all_within-cons, named_here, named_there, Appends,
  Appends-refl, Adds, Adds-refl, Adds-trans, Adds-bind, Within, add_rules-Adds,
}
use better_firewall.Nft.Frame.Match.{
  Quiet, Quiet-append, Quiet-if, ct_state-Quiet, Still, rule_match-Still,
}

-- The chains of the rules of one direction, and those that they jump to.
abbrev pub own_chains : Rule → List String
own_chains r = user_chain_for r.direction ∷ user_logging_chain_for r.direction ∷ []

abbrev pub own_targets : Rule → List String
own_targets r = user_logging_chain_for r.direction ∷ "bfw-user-limit" ∷ "bfw-user-limit-accept" ∷ []

module _ (r : Rule) where
  user_named : is_named (user_chain_for r.direction) (own_chains r) ≡ true
  user_named = named_here (user_chain_for r.direction) _

  log_named : is_named (user_logging_chain_for r.direction) (own_chains r) ≡ true
  log_named =
      named_there _ (user_chain_for r.direction) _
        (named_here (user_logging_chain_for r.direction) [])

  -- A match may be followed by expressions without a jump, or with a jump to a target.
  Quiet-tail :
      (match tail : List Expr)
      → Quiet (own_targets r) match
      → jumps_in (own_targets r) tail ≡ true
      → jumps_in (own_targets r) (match ++ tail) ≡ true
  Quiet-tail match tail q h = Quiet-append (own_targets r) match tail q h

  plain_tail :
      (e : Expr)
      → jump_in (own_targets r) e ≡ true
      → jumps_in (own_targets r) (counter ∷ e ∷ []) ≡ true
  unfolding jumps_in
  plain_tail e h = rw h refl

  jump_tail :
      (name : String)
      → is_named name (own_targets r) ≡ true
      → jumps_in (own_targets r) (counter ∷ verdict (jump_to name) ∷ []) ≡ true
  jump_tail name h = plain_tail (verdict (jump_to name)) h

  nil_tail : jumps_in (own_targets r) [] ≡ true
  unfolding jumps_in
  nil_tail = refl

  log_tail : (t : String) → jumps_in (own_targets r) (limit3 ∷ log_prefix t ∷ []) ≡ true
  unfolding jumps_in
  log_tail t = refl

  nil_within : all_within (own_chains r) (own_targets r) [] ≡ true
  unfolding all_within
  nil_within = refl

  limit_tail : jumps_in (own_targets r) (counter ∷ verdict (jump_to "bfw-user-limit") ∷ []) ≡ true
  limit_tail =
      jump_tail "bfw-user-limit"
        (named_there _ (user_logging_chain_for r.direction) _ (named_here "bfw-user-limit" _))

  meter_tail :
      (reg : Reg) (name : String) (id : ℕ)
      → jumps_in
          (own_targets r)
          (dynset_update reg name id 30 6 ∷ counter ∷ verdict (jump_to "bfw-user-limit") ∷ [])
        ≡ true
  unfolding jumps_in
  meter_tail reg name id = limit_tail

  accept_tail :
      jumps_in (own_targets r) (counter ∷ verdict (jump_to "bfw-user-limit-accept") ∷ []) ≡ true
  accept_tail = jump_tail "bfw-user-limit-accept" (
      named_there _ (user_logging_chain_for r.direction) _
        (named_there _ "bfw-user-limit" _ (named_here "bfw-user-limit-accept" [])))

  logging_rules-within :
      (match : List Expr)
      → Quiet (own_targets r) match
      → all_within (own_chains r) (own_targets r) (logging_rules r match) ≡ true
  unfolding logging_rules
  logging_rules-within match q = elim (Bool-cases (r.log == "")) [
    | inl p ↦ rw p nil_within
    | inr p ↦
        let new = if r.log == "log" then ct_state bit_new else [] in
        let seen : Quiet (own_targets r) (match ++ new) = Quiet-tail match new q (
          Quiet-if (own_targets r) (r.log == "log") (ct_state bit_new) []
            (ct_state-Quiet (own_targets r) bit_new) nil_tail) in
        rw p (
          all_within-cons (own_chains r) (own_targets r) (user_logging_chain_for r.direction) _ _
            log_named (Quiet-tail (match ++ new) _ seen (log_tail (log_prefix_of r.action)))
            (all_within-cons (own_chains r) (own_targets r) (user_logging_chain_for r.direction) _ _
              log_named (Quiet-tail (match ++ new) _ seen (plain_tail (verdict back) refl))
              (all_within-cons (own_chains r) (own_targets r) (user_chain_for r.direction) _ _
                user_named
                (Quiet-tail match _ q
                  (jump_tail (user_logging_chain_for r.direction) (named_here _ _)))
                nil_within)))
  ]

  -- The rule that ends a pass, for one verdict.
  last_rule-Adds :
      (match tail : List Expr) (c : Compiled)
      → Quiet (own_targets r) match
      → jumps_in (own_targets r) tail ≡ true
      → Within (own_chains r) c.chain_index
      → Adds
          (own_chains r)
          (own_targets r)
          c
          (add_rules ((user_chain_for r.direction, match ++ tail) ∷ []) c)
  last_rule-Adds match tail c q h w =
      add_rules-Adds (own_chains r) (own_targets r)
        ((user_chain_for r.direction, match ++ tail) ∷ []) c w
        (all_within-cons (own_chains r) (own_targets r) (user_chain_for r.direction) (match ++ tail)
          [] user_named (Quiet-tail match tail q h) nil_within)

  ensure_limit_set-Appends :
      (six : Bool) (name : String) (c : Compiled) → Appends [] c (ensure_limit_set six name c).1
  unfolding ensure_limit_set
  ensure_limit_set-Appends six name c = elim (Option-cases (find_limit name c.limit_sets)) [
    | inl p ↦ rw (ensure_limit_set, p) (Appends-refl c)
    | inr (id, p) ↦ rw (ensure_limit_set, p) (Appends-refl c)
  ]

  meter_keys-Quiet : (six : Bool) (proto : String) → Quiet (own_targets r) (meter_keys six proto)
  unfolding meter_keys jumps_in
  meter_keys-Quiet true proto = elim (Bool-cases (is_port_proto proto)) [
    | inl p ↦ rw p refl
    | inr p ↦ rw p refl
  ]
  meter_keys-Quiet false proto = elim (Bool-cases (is_port_proto proto)) [
    | inl p ↦ rw p refl
    | inr p ↦ rw p refl
  ]

  compile_limit-Adds :
      (proto : String) (six : Bool) (match : List Expr) (c : Compiled)
      → Quiet (own_targets r) match
      → Within (own_chains r) c.chain_index
      → Adds
          (own_chains r)
          (own_targets r)
          c
          (compile_limit r proto six match (user_chain_for r.direction) c)
  unfolding compile_limit
  compile_limit-Adds proto six match c q w =
      let name = with_family six ("bfw_limit_" <> r.id) in
      let d = (ensure_limit_set six name c).1 in
      let a = ensure_limit_set-Appends six name c in
      let first = Quiet-tail match (ct_state bit_new) q (ct_state-Quiet (own_targets r) bit_new) in
      let keys =
        Quiet-tail (match ++ ct_state bit_new) (meter_keys six proto) first
          (meter_keys-Quiet six proto) in
      Adds-trans (own_chains r) (own_targets r) c d
        (compile_limit r proto six match (user_chain_for r.direction) c) ([], nil_within, a)
        (add_rules-Adds (own_chains r) (own_targets r) _ d (Within-same (own_chains r) c d a.2 w) (
          all_within-cons (own_chains r) (own_targets r) (user_chain_for r.direction) _ _ user_named
            (Quiet-tail (match ++ ct_state bit_new ++ meter_keys six proto) _ keys
              (meter_tail (if six then reg_1 else reg32_00) name (ensure_limit_set six name c).0))
            (all_within-cons (own_chains r) (own_targets r) (user_chain_for r.direction) _ []
              user_named (Quiet-tail match _ q accept_tail) nil_within)))

  compile_action-Adds :
      (proto : String) (six : Bool) (match : List Expr) (c : Compiled)
      → Quiet (own_targets r) match
      → Within (own_chains r) c.chain_index
      → Ensures (Adds (own_chains r) (own_targets r) c) (compile_action r proto six match c)
  unfolding compile_action
  compile_action-Adds proto six match c q w =
      go (r.action == "allow") (r.action == "deny") (r.action == "reject") (r.action == "limit")
    where
      go :
          (a b d e : Bool)
          → Ensures {E = CompileError} (Adds (own_chains r) (own_targets r) c) (
              if a
              then ok (
                  add_rules
                    ((user_chain_for r.direction, match ++ (counter ∷ verdict accept ∷ [])) ∷ [])
                    c)
              else if b
              then ok (
                  add_rules
                    ((user_chain_for r.direction, match ++ (counter ∷ verdict drop_packet ∷ []))
                      ∷ [])
                    c)
              else if d
              then ok (
                  add_rules
                    ((user_chain_for r.direction, match ++ (counter ∷ reject_port ∷ [])) ∷ [])
                    c)
              else if e
              then ok (compile_limit r proto six match (user_chain_for r.direction) c)
              else err (unknown_action r.id r.action))
      go true b d e = last_rule-Adds match _ c q (plain_tail (verdict accept) refl) w
      go false true d e = last_rule-Adds match _ c q (plain_tail (verdict drop_packet) refl) w
      go false false true e = last_rule-Adds match _ c q (plain_tail reject_port refl) w
      go false false false true = compile_limit-Adds proto six match c q w
      go false false false false = tt

  module _ (net : NetText) where
    compile_variant-Adds :
        (six : Bool) (proto : String) (c : Compiled)
        → Within (own_chains r) c.chain_index
        → Ensures (Adds (own_chains r) (own_targets r) c) (compile_variant net r six proto c)
    unfolding compile_variant
    compile_variant-Adds six proto c w =
        Ensures-bind (Still (own_targets r) c) (Adds (own_chains r) (own_targets r) c)
          (rule_match net r proto six c) _ (rule_match-Still (own_targets r) net r proto six c)
          λ m (q, a).
            let w' = Within-same (own_chains r) c m.1 a.2 w in
            let logged =
              add_rules-Adds (own_chains r) (own_targets r) (logging_rules r m.0) m.1 w'
                (logging_rules-within m.0 q) in
            let d = add_rules (logging_rules r m.0) m.1 in
            Ensures-map (Adds (own_chains r) (own_targets r) d)
              (Adds (own_chains r) (own_targets r) c) _
              (λ e b.
                Adds-trans (own_chains r) (own_targets r) c d e
                  (Adds-trans (own_chains r) (own_targets r) c m.1 d ([], nil_within, a) logged) b)
              (compile_action-Adds proto six m.0 d q
                (Within-same (own_chains r) m.1 d logged.2.2 w'))

    compile_variants-Adds :
        (six : Bool) (protos : List String) (c : Compiled)
        → Within (own_chains r) c.chain_index
        → Ensures (Adds (own_chains r) (own_targets r) c) (compile_variants net r six protos c)
    unfolding compile_variants
    compile_variants-Adds six [] c w = Adds-refl (own_chains r) (own_targets r) c
    compile_variants-Adds six (proto ∷ protos) c w =
        Adds-bind (own_chains r) (own_targets r) c (compile_variant net r six proto c) _
          (compile_variant-Adds six proto c w)
          λ d e. compile_variants-Adds six protos d (Within-same (own_chains r) c d e w)

    pub compile_rule-Adds :
        (six : Bool) (now : ℤ) (c : Compiled)
        → Within (own_chains r) c.chain_index
        → Ensures (Adds (own_chains r) (own_targets r) c) (compile_rule net r six now c)
    unfolding compile_rule
    compile_rule-Adds six now c w = elim (Bool-cases (r.disabled || expired r now)) [
      | inl p ↦ rw p (Adds-refl (own_chains r) (own_targets r) c)
      | inr p ↦ rw p (compile_variants-Adds six (proto_variants r) c w)
    ]
