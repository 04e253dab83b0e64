-- ===== src/Nft/Frame/Fixed.antt =====
-- internal/backend/nft/compile.go: the rules that every ruleset has jump to chains that exist.
use better_firewall.Prelude.{
  ℕ, ◌≡◌, refl, Bool, true, false, not, ◌&&◌, ◌||◌, List, [], ◌∷◌, ◌++◌, String, Option, none, some,
  ◌==◌, String-eq, if◌then◌else◌, ends_char, map, ◌<>◌, All,
}
use better_firewall.Store.{Policies}
use better_firewall.Nft.Expr.{
  Expr, counter, verdict, accept, drop_packet, reject_port, limit, log_prefix, back,
}
use better_firewall.Nft.Match.{
  nfproto, l4proto, icmp_type, ct_state, rh_type, fib_addr_type, iface_match, is_cached, port_eq,
  policy_verdict, bit_new, bit_invalid, limit3,
}
use better_firewall.Nft.Compiled.{is_named}
use better_firewall.Nft.Fixed.{
  Direction, directions, policy_for, ban_rule, after_rules, accepted, after_logging_chain_for,
}
use better_firewall.Nft.Fixed.Before.{before_start, before_state, before_icmp4}
use better_firewall.Nft.Fixed.Logging.{
  log_of, after_logging, after_loggings, misc_logging, before_logging, logging_chains,
}
use better_firewall.Nft.Rules.{user_logging_chain_for}
use better_firewall.Nft.Compile.{direction_rules, policy_rules, user_limit_rules}
use better_firewall.Nft.Frame.{jumps_in, all_within, all_within-append, all_within-cons}
use better_firewall.Nft.Frame.Match.{Quiet, Quiet-append, Quiet-if, l4proto-Quiet, ct_state-Quiet}
use better_firewall.Nft.Frame.Chains.{known_chains}

-- Rules that stand in chains of the program, and jump to such chains.
abbrev pub Known : List (String × List Expr) → Type 0
Known rules = all_within known_chains known_chains rules ≡ true

pub Known-nil : Known []
unfolding all_within
Known-nil = refl

pub Known-append : (rs qs : List (String × List Expr)) → Known rs → Known qs → Known (rs ++ qs)
Known-append rs qs p q = rw (all_within-append known_chains known_chains rs qs, p, q) refl

Known-if :
    (b : Bool) (rs qs : List (String × List Expr))
    → Known rs
    → Known qs
    → Known (if b then rs else qs)
Known-if true rs qs p q = p
Known-if false rs qs p q = q

pub before_start-Known : Known before_start
unfolding before_start all_within jumps_in is_named iface_match nfproto rh_type ends_char
before_start-Known = refl

pub before_state-Known : Known before_state
unfolding before_state all_within jumps_in is_named ct_state nfproto l4proto icmp_type is_cached
before_state-Known = refl

pub before_icmp4-Known : Known before_icmp4
unfolding before_icmp4 all_within jumps_in is_named nfproto l4proto icmp_type is_cached
before_icmp4-Known = refl

pub after_rules-Known : Known after_rules
unfolding after_rules all_within jumps_in is_named nfproto l4proto port_eq fib_addr_type is_cached
after_rules-Known = refl

pub ban_rule-Known :
    (ch : String) (six : Bool) (bans : Option (String × ℕ))
    → is_named ch known_chains ≡ true
    → Known (ban_rule ch six bans)
unfolding ban_rule all_within jumps_in nfproto
ban_rule-Known ch six none h = refl
ban_rule-Known ch true (some (name, id)) h = rw h refl
ban_rule-Known ch false (some (name, id)) h = rw h refl

-- One rule of a chain of the program.
pub Known-one :
    (name : String) (exprs : List Expr)
    → is_named name known_chains ≡ true
    → Quiet known_chains exprs
    → Known ((name, exprs) ∷ [])
Known-one name exprs h q = all_within-cons known_chains known_chains name exprs [] h q Known-nil

policy_verdict-Quiet : (p : String) → Quiet known_chains (counter ∷ policy_verdict p ∷ [])
unfolding policy_verdict jumps_in
policy_verdict-Quiet p = go (p == "allow") (p == "reject")
  where
    go :
        (a b : Bool)
        → Quiet known_chains (
            counter
            ∷ (if a then verdict accept else if b then reject_port else verdict drop_packet)
            ∷ [])
    go true b = refl
    go false true = refl
    go false false = refl

-- A direction whose chains are chains of the program.
abbrev pub HasChains : Direction → Type 0
HasChains d =
    (is_named ("bfw-reject-" <> d.base) known_chains ≡ true)
    × (is_named ("bfw-track-" <> d.base) known_chains ≡ true)
    × (is_named ("bfw-skip-to-policy-" <> d.base) known_chains ≡ true)
    × (is_named (after_logging_chain_for d.dir) known_chains ≡ true)
    × (is_named ("bfw-before-logging-" <> d.base) known_chains ≡ true)

pub directions-HasChains : All HasChains directions
unfolding is_named after_logging_chain_for
directions-HasChains = (
  (refl, refl, refl, refl, refl),
  ((refl, refl, refl, refl, refl), ((refl, refl, refl, refl, refl), tt)),
)

tracked-Quiet : (num : ℕ) → Quiet known_chains (accepted (l4proto num ++ ct_state bit_new))
unfolding jumps_in
tracked-Quiet num =
    Quiet-append known_chains (l4proto num ++ ct_state bit_new) _
      (Quiet-append known_chains (l4proto num) _ (l4proto-Quiet known_chains num)
        (ct_state-Quiet known_chains bit_new))
      refl

reject-Quiet : Quiet known_chains (counter ∷ reject_port ∷ [])
unfolding jumps_in
reject-Quiet = refl

direction_rules-Known :
    (pol : Policies) (d : Direction) → HasChains d → Known (direction_rules pol d)
unfolding direction_rules
direction_rules-Known pol d (h, k, l, _, _) =
    let p = policy_for pol d.dir in
    Known-append _ _
      (Known-append _ _
        (Known-if (p == "reject") _ [] (Known-one ("bfw-reject-" <> d.base) _ h reject-Quiet)
          Known-nil)
        (Known-if (p == "allow") _ []
          (all_within-cons known_chains known_chains ("bfw-track-" <> d.base) _ _ k
            (tracked-Quiet 6) (Known-one ("bfw-track-" <> d.base) _ k (tracked-Quiet 17)))
          Known-nil))
      (Known-one ("bfw-skip-to-policy-" <> d.base) _ l (policy_verdict-Quiet p))

pub policy_rules-Known :
    (pol : Policies) (ds : List Direction) → All HasChains ds → Known (policy_rules pol ds)
unfolding policy_rules
policy_rules-Known pol [] h = Known-nil
policy_rules-Known pol (d ∷ ds) (h, hs) =
    Known-append (direction_rules pol d) (policy_rules pol ds) (direction_rules-Known pol d h)
      (policy_rules-Known pol ds hs)

pub user_limit_rules-Known : (level : String) → Known (user_limit_rules level)
unfolding all_within jumps_in is_named
user_limit_rules-Known level = go (level == "off")
  where
    go :
        (b : Bool)
        → Known (
            ("bfw-user-limit-accept", counter ∷ verdict accept ∷ [])
            ∷ ((if b
                  then []
                  else ("bfw-user-limit", limit 3 5 false ∷ log_prefix "[BFW LIMIT BLOCK] " ∷ [])
                    ∷ [])
                ++ (("bfw-user-limit", counter ∷ reject_port ∷ []) ∷ [])))
    go true = refl
    go false = refl

log_of-Quiet : (limited : Bool) (text : String) → Quiet known_chains (log_of limited text)
unfolding jumps_in
log_of-Quiet true text = refl
log_of-Quiet false text = refl

after_loggings-Known :
    (level : String) (limited : Bool) (pol : Policies) (ds : List Direction)
    → All HasChains ds
    → Known (after_loggings level limited pol ds)
unfolding after_loggings after_logging
after_loggings-Known level limited pol [] h = Known-nil
after_loggings-Known level limited pol (d ∷ ds) ((_, _, _, h, _), hs) =
    let p = policy_for pol d.dir in
    let ch = after_logging_chain_for d.dir in
    Known-append _ (after_loggings level limited pol ds)
      (Known-if (p == "deny" || p == "reject") _ _
        (Known-one ch _ h (log_of-Quiet limited "[BFW BLOCK] "))
        (Known-if (not (level == "low")) _ []
          (Known-one ch _ h (log_of-Quiet limited "[BFW ALLOW] ")) Known-nil))
      (after_loggings-Known level limited pol ds hs)

misc_logging-Known : (level : String) (limited : Bool) → Known (misc_logging level limited)
unfolding is_named jumps_in
misc_logging-Known level limited =
    all_within-cons known_chains known_chains "bfw-logging-deny" _ _ refl
      (Quiet-if known_chains (level == "low") _ _
        (Quiet-append known_chains (ct_state bit_invalid) _
          (ct_state-Quiet known_chains bit_invalid) refl)
        (Quiet-append known_chains (ct_state bit_invalid) _
          (ct_state-Quiet known_chains bit_invalid) (log_of-Quiet limited "[BFW AUDIT INVALID] ")))
      (all_within-cons known_chains known_chains "bfw-logging-deny" _ _ refl
        (log_of-Quiet limited "[BFW BLOCK] ")
        (Known-one "bfw-logging-allow" _ refl (log_of-Quiet limited "[BFW ALLOW] ")))

audit-Quiet : Quiet known_chains (ct_state bit_new ++ (limit3 ∷ log_prefix "[BFW AUDIT] " ∷ []))
unfolding ct_state jumps_in
audit-Quiet = refl

before_logging-Known :
    (level : String) (ds : List Direction)
    → All HasChains ds
    → Known (map (before_logging level) ds)
unfolding before_logging
before_logging-Known level [] h = Known-nil
before_logging-Known level (d ∷ ds) ((_, _, _, _, h), hs) =
    all_within-cons known_chains known_chains ("bfw-before-logging-" <> d.base) _ _ h
      (Quiet-if known_chains (level == "medium") _ _ audit-Quiet (
        Quiet-if known_chains (level == "high") _ _ (log_of-Quiet true "[BFW AUDIT] ")
          (log_of-Quiet false "[BFW AUDIT] ")))
      (before_logging-Known level ds hs)

logging_off-Known : Known (
    map (λ (d : Direction). (user_logging_chain_for d.dir, counter ∷ verdict back ∷ [])) directions)
unfolding all_within jumps_in is_named user_logging_chain_for
logging_off-Known = refl

pub logging_chains-Known : (level : String) (pol : Policies) → Known (logging_chains level pol)
unfolding logging_chains
logging_chains-Known level pol =
    let limited = not (level == "high") && not (level == "full") in
    Known-if (level == "off") _ _ logging_off-Known (
      Known-append _ _
        (Known-append _ _ (after_loggings-Known level limited pol directions directions-HasChains)
          (misc_logging-Known level limited))
        (Known-if (not (level == "low")) _ []
          (before_logging-Known level directions directions-HasChains) Known-nil))
