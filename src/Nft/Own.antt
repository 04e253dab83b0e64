-- ===== src/Nft/Own.antt =====
-- internal/backend/nft/compile.go, compileRule: the chains that a rule of the firewall writes to.
use better_firewall.Prelude.{◌≡◌, true, Bool}
use better_firewall.Prelude.Int.{ℤ}
use better_firewall.Prelude.Result.{ok, Ensures-ok}
use better_firewall.Net.{NetText}
use better_firewall.Rule.{Rule}
use better_firewall.Nft.Compiled.{Compiled}
use better_firewall.Nft.UserRules.{compile_rule}
use better_firewall.Nft.Frame.{Adds}
use better_firewall.Nft.Frame.Chains.{subset, Within-subset}
use better_firewall.Nft.Frame.User.{own_chains, own_targets, compile_rule-Adds}

-- Where the user chain and the logging chain of a rule's direction exist and the rule compiles, it
-- appends kernel rules that stand in these two chains, and that jump to this logging chain and the two
-- limit chains alone; the chains, the earlier rules and the NAT tables stay as they are.
pub compile_rule-own :
    (net : NetText) (r : Rule) (six : Bool) (now : ℤ) (c d : Compiled)
    → subset (own_chains r) c.chain_index ≡ true
    → compile_rule net r six now c ≡ ok d
    → Adds (own_chains r) (own_targets r) c d
compile_rule-own net r six now c d h e =
    Ensures-ok (Adds (own_chains r) (own_targets r) c) (compile_rule net r six now c) d
      (compile_rule-Adds r net six now c (Within-subset (own_chains r) c.chain_index h)) e
