-- ===== src/Nft/Accepts/Whole.antt =====
-- internal/backend/nft/compile.go, compile: which states compile.
use better_firewall.Prelude.{
  ◌≡◌, refl, ◌∙◌, ap, Bool, true, false, not, ◌&&◌, ◌||◌, List, [], ◌∷◌, String, String-eq, Bool-eq,
  if◌then◌else◌, Option-cases, inl, inr, ◌<>◌,
}
use better_firewall.Prelude.Int.{ℤ}
use better_firewall.Prelude.Result.{ok, ◌>>=◌}
use better_firewall.Net.{NetText}
use better_firewall.Rule.{Rule}
use better_firewall.Store.{State, IpSet, ThreatBan}
use better_firewall.Nft.Compiled.{Compiled, add_rules}
use better_firewall.Nft.Sets.{
  compile_address_set, compile_named_sets, compile_threat_bans, active_addresses,
}
use better_firewall.Nft.Sets.Cover.{
  unreadable, compile_address_set-with_sets, compile_address_set-bad,
}
use better_firewall.Nft.UserRules.{compile_rule, compile_rules}
use better_firewall.Nft.Compile.{
  effective_policies, effective_ipv6, effective_level, chained, fixed_rules, compile_inet,
  compile_live, compile, panic_compiled,
}
use better_firewall.Nft.Accepts.{is_ok, is_some, is_ok-bind, and_true_right, rule_ok, is_ok-rule}
use better_firewall.Nft.Accepts.Nat.{nats_ok, is_ok-nat}

-- All elements of a set are addresses or prefixes.
abbrev pub readable : NetText → List String → Bool
readable net es = not (is_some (unreadable net es))

unfoldable pub sets_ok : NetText → List IpSet → Bool
sets_ok net [] = true
sets_ok net (s ∷ ss) = readable net s.elements && sets_ok net ss

unfoldable pub rules_ok : ℤ → Bool → List Rule → Bool
rules_ok now six [] = true
rules_ok now six (r ∷ rs) = rule_ok now six r && rules_ok now six rs

-- A state that compiles: under panic every state does.
abbrev pub state_ok : NetText → ℤ → State → Bool
state_ok net now st =
    st.panic
    || readable net (active_addresses now st.bans)
      && (sets_ok net st.sets && (rules_ok now false st.rules4 && rules_ok now true st.rules6))
      && nats_ok net st.nat

module _ (net : NetText) where
  is_ok-sets-one :
      (name4 name6 source : String) (es : List String) (c : Compiled)
      → is_ok (compile_address_set net name4 name6 source es c) ≡ readable net es
  is_ok-sets-one name4 name6 source es c = elim (Option-cases (unreadable net es)) [
    | inl p ↦ rw (compile_address_set-with_sets net name4 name6 source es c p, p) refl
    | inr (e, p) ↦ rw (compile_address_set-bad net name4 name6 source es c e p, p) refl
  ]

  is_ok-sets :
      (ss : List IpSet) (c : Compiled) → is_ok (compile_named_sets net ss c) ≡ sets_ok net ss
  unfolding compile_named_sets sets_ok
  is_ok-sets [] c = refl
  is_ok-sets (s ∷ ss) c =
      is_ok-bind _ (λ d. compile_named_sets net ss d) (sets_ok net ss) (is_ok-sets ss)
      ∙ ap (λ b. b && sets_ok net ss)
          (is_ok-sets-one ("bfw_set_" <> s.name) ("bfw_set_" <> s.name <> "6") ("set " <> s.name)
            s.elements c)

  is_ok-rules :
      (rs : List Rule) (six : Bool) (now : ℤ) (c : Compiled)
      → is_ok (compile_rules net rs six now c) ≡ rules_ok now six rs
  unfolding compile_rules rules_ok
  is_ok-rules [] six now c = refl
  is_ok-rules (r ∷ rs) six now c =
      is_ok-bind (compile_rule net r six now c) (λ d. compile_rules net rs six now d)
        (rules_ok now six rs) (is_ok-rules rs six now)
      ∙ ap (λ b. b && rules_ok now six rs) (is_ok-rule r net six now c)

  is_ok-bans :
      (now : ℤ) (bans : List ThreatBan) (c : Compiled)
      → is_ok (compile_threat_bans net now bans c) ≡ readable net (active_addresses now bans)
  unfolding compile_threat_bans
  is_ok-bans now bans c =
      is_ok-bind
        (compile_address_set net "bfw_threat_bans" "bfw_threat_bans6" "threat ban"
          (active_addresses now bans) c)
        _ true (λ d. refl)
      ∙ and_true_right _
      ∙ is_ok-sets-one "bfw_threat_bans" "bfw_threat_bans6" "threat ban" (active_addresses now bans)
          c

  -- The steps behind the threat bans.
  is_ok-rest :
      (now : ℤ) (st : State) (c : Compiled)
      → is_ok (
          compile_named_sets net st.sets c >>= λ d.
          compile_rules net st.rules4 false now d >>= λ e. compile_rules net st.rules6 true now e)
        ≡ (sets_ok net st.sets && (rules_ok now false st.rules4 && rules_ok now true st.rules6))
  is_ok-rest now st c =
      is_ok-bind (compile_named_sets net st.sets c) _ _ (λ d.
        is_ok-bind (compile_rules net st.rules4 false now d) _ _
          (λ e. is_ok-rules st.rules6 true now e)
        ∙ ap (λ b. b && rules_ok now true st.rules6) (is_ok-rules st.rules4 false now d))
      ∙ ap (λ b. b && (rules_ok now false st.rules4 && rules_ok now true st.rules6))
          (is_ok-sets st.sets c)

  is_ok-inet :
      (now : ℤ) (st : State) (etc : List (String × String))
      → is_ok (compile_inet net now st etc) ≡ (
          readable net (active_addresses now st.bans)
          && (sets_ok net st.sets && (rules_ok now false st.rules4 && rules_ok now true st.rules6)))
  unfolding compile_inet
  is_ok-inet now st etc =
      let first = chained (effective_policies st etc) (effective_ipv6 st etc) in
      is_ok-bind (compile_threat_bans net now st.bans first) _ _ (λ c.
        is_ok-rest now st
          (add_rules (fixed_rules net (effective_policies st etc) (effective_level st) c) c))
      ∙ ap
          (λ b.
            b
            && (sets_ok net st.sets
                && (rules_ok now false st.rules4 && rules_ok now true st.rules6)))
          (is_ok-bans now st.bans first)

  is_ok-live :
      (now : ℤ) (st : State) (etc : List (String × String))
      → is_ok (compile_live net now st etc) ≡ (
          readable net (active_addresses now st.bans)
          && (sets_ok net st.sets && (rules_ok now false st.rules4 && rules_ok now true st.rules6))
          && nats_ok net st.nat)
  unfolding compile_live
  is_ok-live now st etc =
      is_ok-bind (compile_inet net now st etc) _ (nats_ok net st.nat) (λ c. is_ok-nat net st.nat c)
      ∙ ap (λ b. b && nats_ok net st.nat) (is_ok-inet now st etc)

-- `compile` returns a ruleset, and neither an error nor a panic, exactly for these states: under panic
-- mode for every one; otherwise where the bans in force and the elements of the named sets are addresses
-- or prefixes, every rule in force has a known action, known protocols and ICMP type that fit its
-- family, and ICMP has no ports, every NAT rule has a known protocol and kind and, for DNAT, a target of
-- its family, and in no interface name of these rules that ends in a plus sign a character before that
-- sign begins behind the first 16 bytes.
pub is_ok-compile :
    (net : NetText) (now : ℤ) (st : State) (etc : List (String × String))
    → is_ok (compile net now st etc) ≡ state_ok net now st
unfolding compile
is_ok-compile net now st etc = go st.panic
  where
    go :
        (b : Bool)
        → is_ok (if b then ok panic_compiled else compile_live net now st etc) ≡ (
            b
            || readable net (active_addresses now st.bans)
              && (sets_ok net st.sets
                  && (rules_ok now false st.rules4 && rules_ok now true st.rules6))
              && nats_ok net st.nat)
    go true = refl
    go false = is_ok-live net now st etc
