-- ===== src/Nft/Swept.antt =====
-- internal/cli/commands_rules.go, sweepExpired, and the compilation: what the sweep takes out was not
-- compiled before.
use better_firewall.Prelude.{
  ◌≡◌, refl, sym, ◌∙◌, ap, Bool, true, false, not, ◌||◌, List, String, keep, if◌then◌else◌, arith,
  keep-keep, map,
}
use better_firewall.Prelude.Int.{ℤ, ltb_ℤ}
use better_firewall.Prelude.Result.{Result, ok, ◌>>=◌, bind_left}
use better_firewall.Net.{NetText}
use better_firewall.Rule.{Rule, expired}
use better_firewall.Store.{State, ThreatBan, IpSet, Policies}
use better_firewall.Commands.{sweep_expired}
use better_firewall.Nft.Compiled.{Compiled, CompileError, add_rules}
use better_firewall.Nft.Sets.{compile_named_sets, compile_threat_bans, active_addresses}
use better_firewall.Nft.UserRules.{compile_rules}
use better_firewall.Nft.Nat.{compile_nat}
use better_firewall.Nft.Compile.{
  effective_policies, effective_ipv6, effective_level, chained, fixed_rules, compile_inet,
  compile_live, compile, panic_compiled,
}
use better_firewall.Nft.Active.{in_force, bind_same, compile_rules-in_force}

force_lem : (d e : Bool) → not (d || e) ≡ true → not e ≡ true
force_lem d e h = ground arith

in_force-keep :
    (now : ℤ) (rs : List Rule)
    → keep (in_force now) (keep (λ r. not (expired r now)) rs) ≡ keep (in_force now) rs
in_force-keep now rs =
    keep-keep (in_force now) (λ r. not (expired r now))
      (λ r h. force_lem (r.disabled) (expired r now) h) rs

active_addresses-keep :
    (now : ℤ) (bans : List ThreatBan)
    → active_addresses now (keep (λ b. ltb_ℤ now b.expires_at) bans) ≡ active_addresses now bans
unfolding active_addresses
active_addresses-keep now bans = ap (map (λ (b : ThreatBan). b.address)) (
    keep-keep (λ (b : ThreatBan). ltb_ℤ now b.expires_at) (λ b. ltb_ℤ now b.expires_at) (λ b h. h)
      bans)

module _ (net : NetText) (now : ℤ) where
  compile_rules-keep :
      (six : Bool) (rs : List Rule) (c : Compiled)
      → compile_rules net (keep (λ r. not (expired r now)) rs) six now c
        ≡ compile_rules net rs six now c
  compile_rules-keep six rs c =
      compile_rules-in_force net six now (keep (λ r. not (expired r now)) rs) c
      ∙ ap (λ l. compile_rules net l six now c) (in_force-keep now rs)
      ∙ sym (compile_rules-in_force net six now rs c)

  compile_threat_bans-keep :
      (bans : List ThreatBan) (c : Compiled)
      → compile_threat_bans net now (keep (λ b. ltb_ℤ now b.expires_at) bans) c
        ≡ compile_threat_bans net now bans c
  unfolding compile_threat_bans
  compile_threat_bans-keep bans c = rw (active_addresses-keep now bans) refl

  -- The steps of `compile_inet`, on what they read of the state.
  abbrev inet_steps :
      Policies
      → Bool
      → String
      → List ThreatBan
      → List IpSet
      → List Rule
      → List Rule
      → Result CompileError Compiled
  inet_steps pol v6 level bans sets rules4 rules6 =
      compile_threat_bans net now bans (chained pol v6) >>= λ c.
      compile_named_sets net sets (add_rules (fixed_rules net pol level c) c) >>= λ d.
      compile_rules net rules4 false now d >>= λ e. compile_rules net rules6 true now e

  inet_steps-keep :
      (pol : Policies) (v6 : Bool) (level : String) (bans : List ThreatBan) (sets : List IpSet)
      (rules4 rules6 : List Rule)
      → inet_steps pol v6 level
          (keep (λ b. ltb_ℤ now b.expires_at) bans)
          sets
          (keep (λ r. not (expired r now)) rules4)
          (keep (λ r. not (expired r now)) rules6)
        ≡ inet_steps pol v6 level bans sets rules4 rules6
  inet_steps-keep pol v6 level bans sets rules4 rules6 =
      bind_left _ _ _ (compile_threat_bans-keep bans (chained pol v6))
      ∙ bind_same net false now (compile_threat_bans net now bans (chained pol v6)) _ _ λ c.
        bind_same net false now
          (compile_named_sets net sets (add_rules (fixed_rules net pol level c) c)) _ _
          λ d.
            bind_left _ _ _ (compile_rules-keep false rules4 d)
            ∙ bind_same net false now (compile_rules net rules4 false now d) _ _
                λ e. compile_rules-keep true rules6 e

  compile_inet-inet_steps :
      (st : State) (etc : List (String × String))
      → compile_inet net now st etc
        ≡ inet_steps
            (effective_policies st etc)
            (effective_ipv6 st etc)
            (effective_level st)
            st.bans
            st.sets
            st.rules4
            st.rules6
  unfolding compile_inet
  compile_inet-inet_steps st etc = refl

  same_policies :
      (st : State) (etc : List (String × String))
      → effective_policies (sweep_expired now st) etc ≡ effective_policies st etc
  unfolding effective_policies sweep_expired
  same_policies st etc = refl

  same_ipv6 :
      (st : State) (etc : List (String × String))
      → effective_ipv6 (sweep_expired now st) etc ≡ effective_ipv6 st etc
  unfolding effective_ipv6 sweep_expired
  same_ipv6 st etc = refl

  swept_steps :
      (st : State) (pol : Policies) (v6 : Bool)
      → let s = sweep_expired now st in
        inet_steps pol v6 (effective_level s) s.bans s.sets s.rules4 s.rules6
        ≡ inet_steps pol v6 (effective_level st) st.bans st.sets st.rules4 st.rules6
  unfolding sweep_expired
  swept_steps st pol v6 =
      inet_steps-keep pol v6 (effective_level st) st.bans st.sets st.rules4 st.rules6

  same_nat : (st : State) → (sweep_expired now st).nat ≡ st.nat
  unfolding sweep_expired
  same_nat st = refl

  compile_inet-sweep_expired :
      (st : State) (etc : List (String × String))
      → compile_inet net now (sweep_expired now st) etc ≡ compile_inet net now st etc
  compile_inet-sweep_expired st etc =
      compile_inet-inet_steps (sweep_expired now st) etc
      ∙ ap
          (λ pol.
            inet_steps pol (effective_ipv6 (sweep_expired now st) etc)
              (effective_level (sweep_expired now st)) (sweep_expired now st).bans
              (sweep_expired now st).sets (sweep_expired now st).rules4
              (sweep_expired now st).rules6)
          (same_policies st etc)
      ∙ ap
          (λ v6.
            inet_steps (effective_policies st etc) v6 (effective_level (sweep_expired now st))
              (sweep_expired now st).bans (sweep_expired now st).sets (sweep_expired now st).rules4
              (sweep_expired now st).rules6)
          (same_ipv6 st etc)
      ∙ swept_steps st (effective_policies st etc) (effective_ipv6 st etc)
      ∙ sym (compile_inet-inet_steps st etc)

  compile_live-sweep_expired :
      (st : State) (etc : List (String × String))
      → compile_live net now (sweep_expired now st) etc ≡ compile_live net now st etc
  unfolding compile_live
  compile_live-sweep_expired st etc =
      ap (λ m. m >>= λ c. compile_nat net (sweep_expired now st).nat c)
        (compile_inet-sweep_expired st etc)
      ∙ ap (λ nrs. compile_inet net now st etc >>= λ c. compile_nat net nrs c) (same_nat st)

  -- The sweep of expired rules and bans does not change what a state compiles to at the time of the
  -- sweep: the chains, rules and sets, with their order and ids, or the error are the same.
  pub compile-sweep_expired :
      (st : State) (etc : List (String × String))
      → compile net now (sweep_expired now st) etc ≡ compile net now st etc
  unfolding compile sweep_expired
  compile-sweep_expired st etc =
      ap (λ (m : Result CompileError Compiled). if st.panic then ok panic_compiled else m)
        (compile_live-sweep_expired st etc)
