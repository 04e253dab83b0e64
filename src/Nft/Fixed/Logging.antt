-- ===== src/Nft/Fixed/Logging.antt =====
-- internal/backend/nft/compile.go, compileLoggingChains.
use better_firewall.Prelude.{
  Bool, not, ◌&&◌, ◌||◌, List, [], ◌∷◌, ◌++◌, String, ◌==◌, String-eq, if◌then◌else◌, map, ◌<>◌,
}
use better_firewall.Store.{Policies}
use better_firewall.Nft.Expr.{Expr, counter, verdict, back, log_prefix}
use better_firewall.Nft.Match.{ct_state, bit_invalid, bit_new, limit3}
use better_firewall.Nft.Rules.{user_logging_chain_for}
use better_firewall.Nft.Fixed.{Direction, directions, policy_for, after_logging_chain_for}

-- A log expression, rate-limited unless the level is high or full.
abbrev pub log_of : Bool → String → List Expr
log_of limited text = if limited then limit3 ∷ log_prefix text ∷ [] else log_prefix text ∷ []

-- The after-logging chain of one direction.
unfoldable pub after_logging : String → Bool → Policies → Direction → List (String × List Expr)
unfolding policy_for after_logging_chain_for
after_logging level limited pol d =
    let p = policy_for pol d.dir in
    let ch = after_logging_chain_for d.dir in
    if p == "deny" || p == "reject"
    then (ch, log_of limited "[BFW BLOCK] ") ∷ []
    else if not (level == "low")
    then (ch, log_of limited "[BFW ALLOW] ") ∷ []
    else []

-- The chains for what is denied and what is allowed.
abbrev pub misc_logging : String → Bool → List (String × List Expr)
misc_logging level limited =
    (
      "bfw-logging-deny",
      (if level == "low"
          then ct_state bit_invalid ++ (limit3 ∷ counter ∷ verdict back ∷ [])
          else ct_state bit_invalid ++ log_of limited "[BFW AUDIT INVALID] "),
    )
    ∷ ("bfw-logging-deny", log_of limited "[BFW BLOCK] ")
    ∷ ("bfw-logging-allow", log_of limited "[BFW ALLOW] ")
    ∷ []

-- The before-logging chain of one direction.
unfoldable pub before_logging : String → Direction → String × List Expr
unfolding ct_state
before_logging level d = (
  "bfw-before-logging-" <> d.base,
  (if level == "medium"
      then ct_state bit_new ++ (limit3 ∷ log_prefix "[BFW AUDIT] " ∷ [])
      else if level == "high"
      then limit3 ∷ log_prefix "[BFW AUDIT] " ∷ []
      else log_prefix "[BFW AUDIT] " ∷ []),
)

-- The loop of `compileLoggingChains` over the after-logging chains.
unfoldable pub after_loggings :
    String → Bool → Policies → List Direction → List (String × List Expr)
unfolding after_logging
after_loggings level limited pol [] = []
after_loggings level limited pol (d ∷ ds) =
    after_logging level limited pol d ++ after_loggings level limited pol ds

-- `compileLoggingChains`.
unfoldable pub logging_chains : String → Policies → List (String × List Expr)
unfolding after_loggings before_logging user_logging_chain_for ct_state
logging_chains level pol =
    let limited = not (level == "high") && not (level == "full") in
    if level == "off"
    then map (λ (d : Direction). (user_logging_chain_for d.dir, counter ∷ verdict back ∷ []))
        directions
    else after_loggings level limited pol directions
      ++ misc_logging level limited
      ++ (if not (level == "low") then map (before_logging level) directions else [])
