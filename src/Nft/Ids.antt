-- ===== src/Nft/Ids.antt =====
-- internal/backend/nft/compile.go, newSetID and addSet: the ids of the sets of a ruleset.
pub mod Steps
use better_firewall.Prelude.{
  ℕ, zero, suc, ◌≡◌, refl, sym, ◌∙◌, ap, subst, Bool, true, false, ◌||◌, List, [], ◌∷◌, ◌++◌,
  String, Option, none, some, if◌then◌else◌, map, Bool-cases, Option-cases, inl, inr, keep, ◌<>◌,
  arith, ◌==◌, String-eq, ℕ-eq,
}
use better_firewall.Prelude.Int.{ℤ}
use better_firewall.Prelude.Result.{
  Result, ok, err, ◌>>=◌, Ensures, Ensures-bind, Ensures-map, Ensures-ok,
}
use better_firewall.Net.{NetText}
use better_firewall.Rule.{Rule, PortRange, expired}
use better_firewall.Store.{State, IpSet, ThreatBan, NatRule}
use better_firewall.Nft.Expr.{
  Expr, NftSet, SetElement, accept, drop_packet, verdict, counter, reject_port,
}
use better_firewall.Nft.Compiled.{
  Compiled, CompileError, unknown_action, is_named, empty_compiled, chain, add_rule, add_rules,
}
use better_firewall.Nft.Sets.{
  Families, element_intervals, compile_address_set, compile_named_sets, compile_threat_bans,
  active_addresses,
}
use better_firewall.Nft.Rules.{
  append_port_exprs, port_exprs, applies, is_port_proto, proto_variants, user_chain_for,
  proto_exprs, icmp_exprs,
}
use better_firewall.Nft.UserRules.{
  ensure_limit_set, find_limit, compile_limit, logging_rules, compile_action, family_match,
  both_ports, rule_match, compile_variant, compile_variants, compile_rule, compile_rules,
  with_family,
}

-- The ids from 1 to `n`.
abbrev pub ids_to : ℕ → List ℕ
ids_to zero = []
ids_to (suc n) = ids_to n ++ (suc n ∷ [])

-- The sets have the ids from 1 on, in their order.
abbrev pub Numbered : Compiled → Type 0
Numbered c = map (λ (s : NftSet × List SetElement). s.0.id) c.sets ≡ ids_to c.set_id

map-append :
    (xs : List (NftSet × List SetElement)) (y : NftSet × List SetElement)
    → map (λ (s : NftSet × List SetElement). s.0.id) (xs ++ (y ∷ []))
      ≡ map (λ (s : NftSet × List SetElement). s.0.id) xs ++ (y.0.id ∷ [])
map-append [] y = refl
map-append (x ∷ xs) y = ap (λ l. x.0.id ∷ l) (map-append xs y)

-- A set with the next id.
pub Numbered-add :
    (c : Compiled) (s : NftSet) (es : List SetElement)
    → s.id ≡ suc c.set_id
    → Numbered c
    → map (λ (s : NftSet × List SetElement). s.0.id) (c.sets ++ ((s, es) ∷ []))
      ≡ ids_to (suc c.set_id)
Numbered-add c s es e h =
    map-append c.sets (s, es)
    ∙ ap (λ l. l ++ (s.id ∷ [])) h
    ∙ ap (λ n. ids_to c.set_id ++ (n ∷ [])) e

-- Chains and rules change no set.
abbrev pub SameSets : Compiled → Compiled → Type 0
SameSets c d = (d.sets ≡ c.sets) × (d.set_id ≡ c.set_id)

chain-SameSets : (name : String) (c : Compiled) → SameSets c (chain name c)
unfolding chain
chain-SameSets name c = elim (Bool-cases (is_named name c.chain_index)) [
  | inl p ↦ rw p (refl, refl)
  | inr p ↦ rw p (refl, refl)
]

add_rules-SameSets : (rs : List (String × List Expr)) (c : Compiled) → SameSets c (add_rules rs c)
unfolding add_rules add_rule
add_rules-SameSets [] c = (refl, refl)
add_rules-SameSets ((name, exprs) ∷ rs) c =
    let (p, q) = chain-SameSets name c in
    let (p', q') = add_rules-SameSets rs (add_rule name exprs c) in (p' ∙ p, q' ∙ q)

pub Numbered-same : (c d : Compiled) → SameSets c d → Numbered c → Numbered d
Numbered-same c d (p, q) h = rw (p, q) h

pub add_rules-Numbered :
    (rs : List (String × List Expr)) (c : Compiled) → Numbered c → Numbered (add_rules rs c)
add_rules-Numbered rs c h = Numbered-same c (add_rules rs c) (add_rules-SameSets rs c) h

pub create-Numbered : (name : String) (c : Compiled) → Numbered c → Numbered (chain name c)
create-Numbered name c h = Numbered-same c (chain name c) (chain-SameSets name c) h

port_exprs-Numbered :
    (ports : List PortRange) (which : String) (c : Compiled)
    → Numbered c
    → Numbered (port_exprs ports which c).1
unfolding port_exprs
port_exprs-Numbered [] which c h = h
port_exprs-Numbered (p ∷ []) which c h = elim (Bool-cases (p.lo == p.hi)) [
  | inl e ↦ rw e h
  | inr e ↦ rw e h
]
port_exprs-Numbered (p ∷ q ∷ ps) which c h = Numbered-add c _ _ refl h

pub both_ports-Numbered :
    (r : Rule) (proto : String) (c : Compiled) → Numbered c → Numbered (both_ports r proto c).1
unfolding both_ports append_port_exprs
both_ports-Numbered r proto c h = elim (Bool-cases (is_port_proto proto)) [
  | inr p ↦ rw p h
  | inl p ↦
      let src = port_exprs (keep (applies proto) r.src.ports) "sport" c in
      rw p (
        port_exprs-Numbered (keep (applies proto) r.dst.ports) "dport" src.1
          (port_exprs-Numbered (keep (applies proto) r.src.ports) "sport" c h))
]

pub compile_limit-Numbered :
    (r : Rule) (proto : String) (six : Bool) (match : List Expr) (ch : String) (c : Compiled)
    → Numbered c
    → Numbered (compile_limit r proto six match ch c)
unfolding compile_limit
compile_limit-Numbered r proto six match ch c h =
    add_rules-Numbered _ (ensure_limit_set six (with_family six ("bfw_limit_" <> r.id)) c).1
      (go (with_family six ("bfw_limit_" <> r.id)))
  where
    go : (name : String) → Numbered (ensure_limit_set six name c).1
    go name = elim (Option-cases (find_limit name c.limit_sets)) [
      | inl p ↦ rw (ensure_limit_set, p) (Numbered-add c _ [] refl h)
      | inr (id, p) ↦ rw (ensure_limit_set, p) h
    ]
