-- ===== src/Nft/Ids/Steps.antt =====
-- internal/backend/nft/compile.go, compile: every step numbers the sets that it adds.
use better_firewall.Prelude.{
  ℕ, suc, ◌≡◌, refl, Bool, true, false, ◌||◌, List, [], ◌∷◌, ◌++◌, String, if◌then◌else◌,
  Bool-cases, inl, inr, ◌<>◌, ◌==◌, String-eq, Bool-eq,
}
use better_firewall.Prelude.Int.{ℤ}
use better_firewall.Prelude.Result.{Result, ok, err, ◌>>=◌, Ensures, Ensures-bind, Ensures-ok}
use better_firewall.Net.{NetText}
use better_firewall.Rule.{Rule, expired}
use better_firewall.Store.{State, IpSet, ThreatBan, NatRule, Policies}
use better_firewall.Nft.Expr.{
  Expr, Table, ipv4_addr, ipv6_addr, nat_table4, nat_table6, masq, accept, drop_packet, verdict,
  counter, reject_port,
}
use better_firewall.Nft.Compiled.{
  Compiled, CompileError, unknown_action, nat_unknown_kind, is_named, chain, add_rule, add_rules,
  add_rule_object,
}
use better_firewall.Nft.Sets.{
  interval_set, element_intervals, compile_address_set, compile_named_sets, compile_threat_bans,
  active_addresses,
}
use better_firewall.Nft.Intervals.{merge_addr_intervals, interval_elements}
use better_firewall.Nft.Rules.{proto_variants, user_chain_for, proto_exprs, icmp_exprs}
use better_firewall.Nft.UserRules.{
  compile_limit, logging_rules, compile_action, family_match, rule_match, compile_variant,
  compile_variants, compile_rule, compile_rules,
}
use better_firewall.Nft.Ifaces.{both_ifaces}
use better_firewall.Nft.Nat.{
  nat_rule_v6, nat_match, dnat_target, compile_nat_rule, compile_nat_rules, compile_nat,
}
use better_firewall.Nft.Compile.{
  effective_policies, effective_ipv6, effective_level, chained, create_chains, add_base_chains,
  add_base_chain, no_ipv6_rules, fixed_rules, compile_inet, compile_live, compile, panic_compiled,
}
use better_firewall.Nft.Ids.{
  Numbered, Numbered-add, add_rules-Numbered, both_ports-Numbered, compile_limit-Numbered,
}

anything : {A : Type 0} (m : Result CompileError A) → Ensures {0, 0, 0} (λ _. Unit) m
anything (ok a) = tt
anything (err e) = tt

chained-Numbered : (pol : Policies) (ipv6 : Bool) → Numbered (chained pol ipv6)
unfolding chained create_chains add_base_chains add_base_chain add_rules add_rule chain is_named
    no_ipv6_rules
chained-Numbered pol true = refl
chained-Numbered pol false = refl

module _ (r : Rule) where
  compile_action-Numbered :
      (proto : String) (six : Bool) (match : List Expr) (c : Compiled)
      → Numbered c
      → Ensures Numbered (compile_action r proto six match c)
  unfolding compile_action
  compile_action-Numbered proto six match c h =
      go (r.action == "allow") (r.action == "deny") (r.action == "reject") (r.action == "limit")
    where
      last :
          (tail : List Expr)
          → Numbered (add_rules ((user_chain_for r.direction, match ++ tail) ∷ []) c)
      last tail = add_rules-Numbered ((user_chain_for r.direction, match ++ tail) ∷ []) c h

      go :
          (a b d e : Bool)
          → Ensures {E = CompileError} Numbered (
              if a
              then ok (
                  add_rules
                    ((user_chain_for r.direction, match ++ (counter ∷ verdict accept ∷ [])) ∷ [])
                    c)
              else if b
              then ok (
                  add_rules
                    ((user_chain_for r.direction, match ++ (counter ∷ verdict drop_packet ∷ []))
                      ∷ [])
                    c)
              else if d
              then ok (
                  add_rules
                    ((user_chain_for r.direction, match ++ (counter ∷ reject_port ∷ [])) ∷ [])
                    c)
              else if e
              then ok (compile_limit r proto six match (user_chain_for r.direction) c)
              else err (unknown_action r.id r.action))
      go true b d e = last _
      go false true d e = last _
      go false false true e = last _
      go false false false true =
          compile_limit-Numbered r proto six match (user_chain_for r.direction) c h
      go false false false false = tt

  module _ (net : NetText) where
    rule_match-Numbered :
        (proto : String) (six : Bool) (c : Compiled)
        → Numbered c
        → Ensures (λ (m : List Expr × Compiled). Numbered m.1) (rule_match net r proto six c)
    unfolding rule_match
    rule_match-Numbered proto six c h =
        Ensures-bind (λ _. Unit) (λ (m : List Expr × Compiled). Numbered m.1)
          (family_match r proto six) _ (anything _)
          λ family _.
            Ensures-bind (λ _. Unit) (λ (m : List Expr × Compiled). Numbered m.1)
              (both_ifaces r.iface_in r.iface_out) _ (anything _)
              λ ifaces _.
                Ensures-bind (λ _. Unit) (λ (m : List Expr × Compiled). Numbered m.1)
                  (proto_exprs r proto) _ (anything _)
                  λ l4 _.
                    Ensures-bind (λ _. Unit) (λ (m : List Expr × Compiled). Numbered m.1)
                      (icmp_exprs r proto) _ (anything _) λ icmp _. both_ports-Numbered r proto c h

    compile_variants-Numbered :
        (six : Bool) (protos : List String) (c : Compiled)
        → Numbered c
        → Ensures Numbered (compile_variants net r six protos c)
    unfolding compile_variants compile_variant
    compile_variants-Numbered six [] c h = h
    compile_variants-Numbered six (proto ∷ protos) c h =
        Ensures-bind Numbered Numbered _ _
          (Ensures-bind (λ (m : List Expr × Compiled). Numbered m.1) Numbered
            (rule_match net r proto six c) _ (rule_match-Numbered proto six c h)
            λ m k.
              compile_action-Numbered proto six m.0 (add_rules (logging_rules r m.0) m.1)
                (add_rules-Numbered (logging_rules r m.0) m.1 k))
          λ d k. compile_variants-Numbered six protos d k

    compile_rule-Numbered :
        (six : Bool) (now : ℤ) (c : Compiled)
        → Numbered c
        → Ensures Numbered (compile_rule net r six now c)
    unfolding compile_rule
    compile_rule-Numbered six now c h = elim (Bool-cases (r.disabled || expired r now)) [
      | inl p ↦ rw p h
      | inr p ↦ rw p (compile_variants-Numbered six (proto_variants r) c h)
    ]

module _ (net : NetText) where
  compile_rules-Numbered :
      (rs : List Rule) (six : Bool) (now : ℤ) (c : Compiled)
      → Numbered c
      → Ensures Numbered (compile_rules net rs six now c)
  unfolding compile_rules
  compile_rules-Numbered [] six now c h = h
  compile_rules-Numbered (r ∷ rs) six now c h =
      Ensures-bind Numbered Numbered (compile_rule net r six now c) _
        (compile_rule-Numbered r net six now c h) λ d k. compile_rules-Numbered rs six now d k

  address_set-Numbered :
      (name4 name6 source : String) (es : List String) (c : Compiled)
      → Numbered c
      → Ensures Numbered (compile_address_set net name4 name6 source es c)
  unfolding compile_address_set
  address_set-Numbered name4 name6 source es c h =
      Ensures-bind (λ _. Unit) Numbered (element_intervals net source es) _ (anything _)
        λ f _.
          let set4 = interval_set name4 (suc c.set_id) ipv4_addr in
          let elements = interval_elements 4 (merge_addr_intervals f.iv4) in
          let mid : Compiled = record c {
            set_id = suc c.set_id;
            sets = c.sets ++ ((set4, elements) ∷ []);
          } in
          Numbered-add mid (interval_set name6 (suc (suc c.set_id)) ipv6_addr)
            (interval_elements 16 (merge_addr_intervals f.iv6)) refl
            (Numbered-add c set4 elements refl h)

  compile_named_sets-Numbered :
      (ss : List IpSet) (c : Compiled) → Numbered c → Ensures Numbered (compile_named_sets net ss c)
  unfolding compile_named_sets
  compile_named_sets-Numbered [] c h = h
  compile_named_sets-Numbered (s ∷ ss) c h =
      Ensures-bind Numbered Numbered _ _
        (address_set-Numbered ("bfw_set_" <> s.name) ("bfw_set_" <> s.name <> "6")
          ("set " <> s.name) s.elements c h)
        λ d k. compile_named_sets-Numbered ss d k

  compile_threat_bans-Numbered :
      (now : ℤ) (bans : List ThreatBan) (c : Compiled)
      → Numbered c
      → Ensures Numbered (compile_threat_bans net now bans c)
  unfolding compile_threat_bans
  compile_threat_bans-Numbered now bans c h =
      Ensures-bind Numbered Numbered _ _
        (address_set-Numbered "bfw_threat_bans" "bfw_threat_bans6" "threat ban"
          (active_addresses now bans) c h)
        λ d k. k

  compile_nat_rules-Numbered :
      (i : ℕ) (nrs : List NatRule) (c : Compiled)
      → Numbered c
      → Ensures Numbered (compile_nat_rules net i nrs c)
  unfolding compile_nat_rules compile_nat_rule
  compile_nat_rules-Numbered i [] c h = h
  compile_nat_rules-Numbered i (nr ∷ nrs) c h =
      Ensures-bind Numbered Numbered _ _
        (Ensures-bind (λ _. Unit) Numbered (nat_match net i nr (nat_rule_v6 net nr)) _ (anything _)
          λ match _.
            go (nr.kind == "masquerade") (nr.kind == "dnat")
              (if nat_rule_v6 net nr then nat_table6 else nat_table4) match)
        λ d k. compile_nat_rules-Numbered (suc i) nrs d k
    where
      go :
          (a b : Bool) (t : Table) (match : List Expr)
          → Ensures {E = CompileError} Numbered (
              if a
              then ok (add_rule_object t "postrouting" (match ++ (masq ∷ [])) c)
              else if b
              then (dnat_target net i (nat_rule_v6 net nr) nr.to_dest >>= λ target.
                  ok (add_rule_object t "prerouting" (match ++ target) c))
              else err (nat_unknown_kind i nr.kind))
      go true b t match = h
      go false true t match =
          Ensures-bind (λ _. Unit) Numbered (dnat_target net i (nat_rule_v6 net nr) nr.to_dest) _
            (anything _) λ target _. h
      go false false t match = tt

  compile_nat-Numbered :
      (nrs : List NatRule) (c : Compiled) → Numbered c → Ensures Numbered (compile_nat net nrs c)
  unfolding compile_nat
  compile_nat-Numbered [] c h = h
  compile_nat-Numbered (nr ∷ nrs) c h = compile_nat_rules-Numbered 0 (nr ∷ nrs) _ h

  rest-Numbered :
      (now : ℤ) (st : State) (c : Compiled)
      → Numbered c
      → Ensures Numbered (
          compile_named_sets net st.sets c >>= λ d.
          compile_rules net st.rules4 false now d >>= λ e. compile_rules net st.rules6 true now e)
  rest-Numbered now st c h =
      Ensures-bind Numbered Numbered (compile_named_sets net st.sets c) _
        (compile_named_sets-Numbered st.sets c h)
        λ d k.
          Ensures-bind Numbered Numbered (compile_rules net st.rules4 false now d) _
            (compile_rules-Numbered st.rules4 false now d k)
            λ e l. compile_rules-Numbered st.rules6 true now e l

  compile_inet-Numbered :
      (now : ℤ) (st : State) (etc : List (String × String))
      → Ensures Numbered (compile_inet net now st etc)
  unfolding compile_inet
  compile_inet-Numbered now st etc =
      let first = chained (effective_policies st etc) (effective_ipv6 st etc) in
      Ensures-bind Numbered Numbered (compile_threat_bans net now st.bans first) _
        (compile_threat_bans-Numbered now st.bans first
          (chained-Numbered (effective_policies st etc) (effective_ipv6 st etc)))
        λ c h.
          rest-Numbered now st
            (add_rules (fixed_rules net (effective_policies st etc) (effective_level st) c) c)
            (add_rules-Numbered (fixed_rules net (effective_policies st etc) (effective_level st) c)
              c h)

  compile_live-Numbered :
      (now : ℤ) (st : State) (etc : List (String × String))
      → Ensures Numbered (compile_live net now st etc)
  unfolding compile_live
  compile_live-Numbered now st etc =
      Ensures-bind Numbered Numbered (compile_inet net now st etc) _
        (compile_inet-Numbered now st etc) λ c h. compile_nat-Numbered st.nat c h

-- If `compile` returns a ruleset, the ids of its sets are 1, 2, 3 and so on in the order of the sets:
-- no two sets share an id, and none has the id 0.
pub compile-Numbered :
    (net : NetText) (now : ℤ) (st : State) (etc : List (String × String)) (d : Compiled)
    → compile net now st etc ≡ ok d
    → Numbered d
unfolding compile
compile-Numbered net now st etc d h = Ensures-ok Numbered _ d (go st.panic) h
  where
    go :
        (b : Bool) → Ensures Numbered (if b then ok panic_compiled else compile_live net now st etc)
    go true = refl
    go false = compile_live-Numbered net now st etc
