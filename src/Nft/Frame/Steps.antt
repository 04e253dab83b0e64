-- ===== src/Nft/Frame/Steps.antt =====
-- internal/backend/nft/compile.go, compile: each of its steps adds rules of the program's chains alone.
use better_firewall.Prelude.{
  ◌≡◌, refl, Bool, true, false, List, [], ◌∷◌, String, ◌==◌, String-eq, if◌then◌else◌, ◌<>◌,
}
use better_firewall.Prelude.Int.{ℤ}
use better_firewall.Prelude.Result.{Result, ok, err, Ensures, Ensures-bind, Ensures-map}
use better_firewall.Net.{NetText}
use better_firewall.Rule.{Rule}
use better_firewall.Store.{IpSet, ThreatBan}
use better_firewall.Nft.Compiled.{Compiled, CompileError, is_named}
use better_firewall.Nft.Rules.{user_chain_for, user_logging_chain_for}
use better_firewall.Nft.Sets.{
  element_intervals, compile_address_set, compile_named_sets, compile_threat_bans, active_addresses,
}
use better_firewall.Nft.UserRules.{compile_rule, compile_rules}
use better_firewall.Nft.Frame.{
  all_within, all_within-Within, Appends, Appends-refl, Appends-trans, Adds, Adds-refl, Adds-bind,
  Within, Within-same,
}
use better_firewall.Nft.Frame.Chains.{known_chains, subset, Within-subset}
use better_firewall.Nft.Frame.User.{own_chains, own_targets, compile_rule-Adds}

-- Only rules of the program's chains are added.
abbrev pub Grows : Compiled → Compiled → Type 0
Grows = Adds known_chains known_chains

-- Nothing but sets is added.
pub Grows-Appends : (c d : Compiled) → Appends [] c d → Grows c d
unfolding all_within
Grows-Appends c d a = ([], refl, a)

user_chain : Bool → Bool → String
user_chain out routed =
    if out then "bfw-user-output" else if routed then "bfw-user-forward" else "bfw-user-input"

logging_chain : Bool → Bool → String
logging_chain out routed =
    if out
    then "bfw-user-logging-output"
    else if routed
    then "bfw-user-logging-forward"
    else "bfw-user-logging-input"

chains_subset :
    (out routed : Bool)
    → subset (user_chain out routed ∷ logging_chain out routed ∷ []) known_chains ≡ true
unfolding subset is_named user_chain logging_chain
chains_subset true routed = refl
chains_subset false true = refl
chains_subset false false = refl

targets_subset :
    (out routed : Bool)
    → subset
        (logging_chain out routed ∷ "bfw-user-limit" ∷ "bfw-user-limit-accept" ∷ [])
        known_chains
      ≡ true
unfolding subset is_named logging_chain
targets_subset true routed = refl
targets_subset false true = refl
targets_subset false false = refl

own-Within : (r : Rule) → Within (own_chains r) known_chains × Within (own_targets r) known_chains
unfolding user_chain_for user_logging_chain_for user_chain logging_chain
own-Within r =
    let out = r.direction == "out" in
    let routed = r.direction == "routed" in
    (
      Within-subset (own_chains r) known_chains (chains_subset out routed),
      Within-subset (own_targets r) known_chains (targets_subset out routed),
    )

anything : {A : Type 0} (m : Result CompileError A) → Ensures {0, 0, 0} (λ _. Unit) m
anything (ok a) = tt
anything (err e) = tt

module _ (net : NetText) where
  Appends-set :
      (name4 name6 source : String) (es : List String) (c : Compiled)
      → Ensures (Appends [] c) (compile_address_set net name4 name6 source es c)
  unfolding compile_address_set
  Appends-set name4 name6 source es c =
      Ensures-bind (λ _. Unit) (Appends [] c) (element_intervals net source es) _ (anything _)
        λ f _. Appends-refl c

  pub compile_named_sets-Appends :
      (ss : List IpSet) (c : Compiled) → Ensures (Appends [] c) (compile_named_sets net ss c)
  unfolding compile_named_sets
  compile_named_sets-Appends [] c = Appends-refl c
  compile_named_sets-Appends (s ∷ ss) c =
      Ensures-bind (Appends [] c) (Appends [] c) _ _
        (Appends-set ("bfw_set_" <> s.name) ("bfw_set_" <> s.name <> "6") ("set " <> s.name)
          s.elements c)
        λ d a.
          Ensures-map (Appends [] d) (Appends [] c) _ (λ e b. Appends-trans c d e [] [] a b)
            (compile_named_sets-Appends ss d)

  pub compile_threat_bans-Appends :
      (now : ℤ) (bans : List ThreatBan) (c : Compiled)
      → Ensures (Appends [] c) (compile_threat_bans net now bans c)
  unfolding compile_threat_bans
  compile_threat_bans-Appends now bans c =
      Ensures-bind (Appends [] c) (Appends [] c) _ _
        (Appends-set "bfw_threat_bans" "bfw_threat_bans6" "threat ban" (active_addresses now bans)
          c)
        λ d a. a

  pub compile_rules-Grows :
      (rs : List Rule) (six : Bool) (now : ℤ) (c : Compiled)
      → Within known_chains c.chain_index
      → Ensures (Grows c) (compile_rules net rs six now c)
  unfolding compile_rules
  compile_rules-Grows [] six now c w = Adds-refl known_chains known_chains c
  compile_rules-Grows (r ∷ rs) six now c w =
      let (v, t) = own-Within r in
      Adds-bind known_chains known_chains c (compile_rule net r six now c) _
        (Ensures-map (Adds (own_chains r) (own_targets r) c) (Grows c) _
          (λ d (qs, p, a). (
            qs,
            all_within-Within (own_chains r) known_chains (own_targets r) known_chains qs v t p,
            a,
          ))
          (compile_rule-Adds r net six now c (λ n h. w n (v n h))))
        λ d e. compile_rules-Grows rs six now d (Within-same known_chains c d e w)
