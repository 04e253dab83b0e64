-- ===== src/Nft/Closed.antt =====
-- internal/backend/nft/compile.go, compile: every rule stands in a chain that the ruleset declares, and
-- jumps to chains that it declares.
use better_firewall.Prelude.{
  ◌≡◌, refl, sym, ◌∙◌, ap, Bool, true, false, ◌&&◌, List, [], ◌∷◌, ◌++◌, String, if◌then◌else◌, map,
  All, All-append, inl, inr, and_true, ◌⊎◌,
}
use better_firewall.Prelude.Int.{ℤ}
use better_firewall.Prelude.Result.{ok, ◌>>=◌, Ensures, Ensures-bind, Ensures-map, Ensures-ok}
use better_firewall.Net.{NetText}
use better_firewall.Store.{State, NatRule, Policies}
use better_firewall.Nft.Expr.{Expr, Chain, Table, inet_table, nat_table4, nat_table6, NftRule}
use better_firewall.Nft.Compiled.{Compiled, is_named, add_rules}
use better_firewall.Nft.Sets.{compile_named_sets, compile_threat_bans}
use better_firewall.Nft.UserRules.{compile_rules}
use better_firewall.Nft.Fixed.{directions}
use better_firewall.Nft.Compile.{
  effective_policies, effective_ipv6, effective_level, base_chain, fixed_rules, chained,
  compile_inet, compile_live, compile, panic_compiled,
}
use better_firewall.Nft.Frame.{
  jumps_in, all_within, all_within-append, all_within-Within, inet_rules, inet_rules-append,
  Adds-trans, Adds-bind, Appends, Within, Within-same, add_rules-Adds,
}
use better_firewall.Nft.Frame.Chains.{
  known_chains, base_names, inet_chains, chained-chains, base_rules, chained-rules,
  base_rules-within, chained-Within, subset, Within-subset,
}
use better_firewall.Nft.Frame.Before.{fixed_rules-Known}
use better_firewall.Nft.Frame.Steps.{
  Grows, Grows-Appends, compile_named_sets-Appends, compile_threat_bans-Appends,
  compile_rules-Grows,
}
use better_firewall.Nft.Frame.Nat.{nat_names, IsNat, nat_part, EndsNat, compile_nat-EndsNat}

abbrev same_table : Table → Table → Bool
same_table inet_table inet_table = true
same_table nat_table4 nat_table4 = true
same_table nat_table6 nat_table6 = true
same_table _ _ = false

-- The names of the chains of a table.
abbrev pub chain_names : Table → List Chain → List String
chain_names t [] = []
chain_names t (c ∷ cs) =
    let rest = chain_names t cs in if same_table c.table t then c.name ∷ rest else rest

-- A rule's chain, and the targets of its jumps, are chains of the rule's table.
abbrev pub Closed : List Chain → NftRule → Type 0
Closed chains r =
    (is_named r.chain (chain_names r.table chains) ≡ true)
    × (jumps_in (chain_names r.table chains) r.exprs ≡ true)

abbrev pub all_names : List String
all_names = base_names ++ known_chains

inet_names :
    (pol : Policies) (nrs : List NatRule)
    → chain_names inet_table (inet_chains pol ++ nat_part nrs) ≡ base_names ++ known_chains
inet_names pol [] = refl
inet_names pol (nr ∷ nrs) = refl

base-Within : Within base_names all_names
unfolding subset is_named
base-Within = Within-subset base_names all_names refl

known-Within : Within known_chains all_names
unfolding subset is_named
known-Within = Within-subset known_chains all_names refl

-- The program's chains are in the index, once they are created.
in_index :
    (pol : Policies) (ipv6 : Bool) (c : Compiled)
    → c.chain_index ≡ (chained pol ipv6).chain_index
    → Within known_chains c.chain_index
in_index pol ipv6 c e n h =
    Within-same all_names (chained pol ipv6) c e (chained-Within pol ipv6) n (known-Within n h)

Closed-inet :
    (chains : List Chain) (rs : List (String × List Expr))
    → chain_names inet_table chains ≡ all_names
    → all_within all_names all_names rs ≡ true
    → All (Closed chains) (inet_rules rs)
unfolding all_within
Closed-inet chains [] e h = tt
Closed-inet chains ((name, exprs) ∷ rs) e h =
    let (p, q) =
      and_true (is_named name all_names && jumps_in all_names exprs)
        (all_within all_names all_names rs) h in
    let (p', p'') = and_true (is_named name all_names) (jumps_in all_names exprs) p in
    ((rw e p', rw e p''), Closed-inet chains rs e q)

-- Rules of the NAT tables, where both have their chains.
Closed-nat :
    (chains : List Chain) (rs : List NftRule)
    → chain_names nat_table4 chains ≡ nat_names
    → chain_names nat_table6 chains ≡ nat_names
    → All IsNat rs
    → All (Closed chains) rs
Closed-nat chains [] e f h = tt
Closed-nat chains (r ∷ rs) e f ((t, p, q), h) = (go t, Closed-nat chains rs e f h)
  where
    go : (r.table ≡ nat_table4) ⊎ (r.table ≡ nat_table6) → Closed chains r
    go (inl k) = (rw (k, e) p, rw (k, e) q)
    go (inr k) = (rw (k, f) p, rw (k, f) q)

-- What the steps before the NAT tables lead to.
abbrev Built : Policies → Compiled → Type 0
Built pol c =
    (rs : List (String × List Expr)) × (all_within all_names all_names rs ≡ true)
    × (c.rules ≡ inet_rules rs)
    × (c.chains ≡ inet_chains pol)

close_nat :
    (pol : Policies) (nrs : List NatRule) (c d : Compiled)
    → Built pol c
    → EndsNat nrs c d
    → (d.chains ≡ inet_chains pol ++ nat_part nrs) × All (Closed d.chains) d.rules
close_nat pol [] c d (rs, p, q, a) e =
    let k : All (Closed (inet_chains pol)) (inet_rules rs) =
      Closed-inet (inet_chains pol) rs (inet_names pol []) p in
    rw (e, q, a) (refl, k)
close_nat pol (nr ∷ nrs) c d (rs, p, q, a) (ns, n, q', a') =
    let chains = inet_chains pol ++ nat_part (nr ∷ nrs) in
    let k = Closed-inet chains rs (inet_names pol (nr ∷ nrs)) p in
    let l = Closed-nat chains ns refl refl n in
    rw (a', q', q, a) (refl, All-append (Closed chains) (inet_rules rs) ns k l)

-- The chains of a ruleset without panic.
abbrev pub live_chains : State → List (String × String) → List Chain
live_chains st etc = inet_chains (effective_policies st etc) ++ nat_part st.nat

module _ (net : NetText) (now : ℤ) (st : State) (etc : List (String × String)) where
  abbrev first : Compiled
  first = chained (effective_policies st etc) (effective_ipv6 st etc)

  -- The steps behind the threat bans.
  rest-Grows :
      (c : Compiled) (rs : List (String × List Expr))
      → Within known_chains c.chain_index
      → all_within known_chains known_chains rs ≡ true
      → Ensures (Grows c) (
          compile_named_sets net st.sets (add_rules rs c) >>= λ d.
          compile_rules net st.rules4 false now d >>= λ e. compile_rules net st.rules6 true now e)
  rest-Grows c rs w h =
      let c' = add_rules rs c in
      let fixed = add_rules-Adds known_chains known_chains rs c w h in
      let w' = Within-same known_chains c c' fixed.2.2 w in
      Ensures-map (Grows c') (Grows c) _
        (λ e g. Adds-trans known_chains known_chains c c' e fixed g)
        (Adds-bind known_chains known_chains c' (compile_named_sets net st.sets c') _
          (Ensures-map (Appends [] c') (Grows c') _ (λ d a. Grows-Appends c' d a)
            (compile_named_sets-Appends net st.sets c'))
          λ d e.
            let v = Within-same known_chains c' d e w' in
            Adds-bind known_chains known_chains d (compile_rules net st.rules4 false now d) _
              (compile_rules-Grows net st.rules4 false now d v)
              λ f k.
                compile_rules-Grows net st.rules6 true now f (Within-same known_chains d f k v))

  compile_inet-Grows : Ensures (Grows first) (compile_inet net now st etc)
  unfolding compile_inet
  compile_inet-Grows =
      Adds-bind known_chains known_chains first (compile_threat_bans net now st.bans first) _
        (Ensures-map (Appends [] first) (Grows first) _ (λ c a. Grows-Appends first c a)
          (compile_threat_bans-Appends net now st.bans first))
        λ c e.
          rest-Grows c (fixed_rules net (effective_policies st etc) (effective_level st) c)
            (in_index (effective_policies st etc) (effective_ipv6 st etc) c e)
            (fixed_rules-Known net (effective_policies st etc) (effective_level st) c)

  abbrev Whole : Compiled → Type 0
  Whole d = (d.chains ≡ live_chains st etc) × All (Closed d.chains) d.rules

  -- The rules of the first steps and of the others stand in the program's chains.
  inet-within : (c : Compiled) → Grows first c → Built (effective_policies st etc) c
  inet-within c (rs, p, (q, a, _, _)) =
      let ipv6 = effective_ipv6 st etc in
      let base = base_rules ipv6 directions in
      let b =
        all_within-Within base_names all_names known_chains all_names base base-Within known-Within
          (base_rules-within ipv6) in
      let k =
        all_within-Within known_chains all_names known_chains all_names rs known-Within known-Within
          p in
      (
        base ++ rs,
        rw (all_within-append all_names all_names base rs, b, k) refl,
        q
            ∙ ap (λ l. l ++ inet_rules rs) (chained-rules (effective_policies st etc) ipv6)
            ∙ sym (inet_rules-append base rs),
        a ∙ chained-chains (effective_policies st etc) ipv6,
      )

  compile_live-Whole : Ensures Whole (compile_live net now st etc)
  unfolding compile_live
  compile_live-Whole =
      Ensures-bind (Grows first) Whole (compile_inet net now st etc) _ compile_inet-Grows λ c g.
        Ensures-map (EndsNat st.nat c) Whole _
          (λ d n. close_nat (effective_policies st etc) st.nat c d (inet-within c g) n)
          (compile_nat-EndsNat net st.nat c)

-- The chains of a ruleset: under panic three base chains that drop; otherwise base chains with the
-- effective policies, the regular chains, and those of the NAT tables.
abbrev pub declared_chains : State → List (String × String) → List Chain
declared_chains st etc =
    if st.panic then map (λ d. base_chain d false) directions else live_chains st etc

abbrev Sound : State → List (String × String) → Compiled → Type 0
Sound st etc d = (d.chains ≡ declared_chains st etc) × All (Closed d.chains) d.rules

compile-Sound :
    (net : NetText) (now : ℤ) (st : State) (etc : List (String × String))
    → Ensures (Sound st etc) (compile net now st etc)
unfolding compile
compile-Sound net now st etc = go st.panic
  where
    go :
        (b : Bool)
        → Ensures
            (λ (d : Compiled).
              (d.chains
                ≡ (if b then map (λ d. base_chain d false) directions else live_chains st etc))
              × All (Closed d.chains) d.rules)
            (if b then ok panic_compiled else compile_live net now st etc)
    go true = (refl, tt)
    go false = compile_live-Whole net now st etc

-- If `compile` returns a ruleset, its chains are exactly those of the state: under panic three base
-- chains that drop everything, otherwise the base chains, accepting where the effective policy is to
-- allow, the program's other chains, and the chains of the NAT tables if there is a NAT rule. Every
-- rule stands in a chain that its table declares, and jumps to such chains alone.
pub compile-Closed :
    (net : NetText) (now : ℤ) (st : State) (etc : List (String × String)) (d : Compiled)
    → compile net now st etc ≡ ok d
    → (d.chains ≡ declared_chains st etc) × All (Closed d.chains) d.rules
compile-Closed net now st etc d h =
    Ensures-ok (Sound st etc) (compile net now st etc) d (compile-Sound net now st etc) h
