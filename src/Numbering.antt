-- ===== src/Numbering.antt =====
-- internal/cli/status.go: the numbers by which `status numbered` shows the rules.
pub mod Laws
use better_firewall.Prelude.{
  ℕ, suc, ◌+◌, Bool, true, false, not, ◌&&◌, ◌||◌, List, [], ◌∷◌, ◌++◌, String, Option, none, some,
  ◌==◌, String-eq, if◌then◌else◌, map,
}
use better_firewall.Prelude.Int.{ℤ, pos, ℤ_eq}
use better_firewall.Rule.{Rule, set_v6}
use better_firewall.Rule.Keys.{app_tuple}
use better_firewall.Store.{State}

-- `markFamilies`.
unfoldable pub mark_families : State → State
mark_families st = record st {
  rules4 = map (λ r. set_v6 r false) st.rules4;
  rules6 = map (λ r. set_v6 r true) st.rules6;
}

abbrev pub is_app : Rule → Bool
is_app r = not (r.dapp == "") || not (r.sapp == "")

-- `seen[t]`.
unfoldable pub contains : String → List String → Bool
contains t [] = false
contains t (s ∷ seen) = s == t || contains t seen

-- Is the rule a further one of a group that was met before, and the groups met after it.
unfoldable pub repeated : List String → Rule → Bool
unfolding contains
repeated seen r = is_app r && contains (app_tuple r) seen

abbrev pub see : List String → Rule → List String
see seen r = if is_app r then app_tuple r ∷ seen else seen

pub count_from : List String → List Rule → ℕ
count_from seen [] = 0
count_from seen (r ∷ rs) =
    (if repeated seen r then 0 else 1)
    + count_from (if repeated seen r then seen else see seen r) rs

-- `dedupedCount`.
unfoldable pub deduped_count : List Rule → ℕ
unfolding count_from
deduped_count rs = count_from [] rs

-- The state of the loops of `ruleByNumber`, and what they found.
pub data Scan : Type 0 where
  found : ℕ → Scan
  passed : List String → ℕ → Scan

-- The loop over one family; `i` is the index in its list.
unfoldable pub scan : ℤ → List String → ℕ → ℕ → List Rule → Scan
scan num seen count i [] = passed seen count
scan num seen count i (r ∷ rs) =
    let skip = scan num seen count (i + 1) rs in
    let next = scan num (see seen r) (count + 1) (i + 1) rs in
    if repeated seen r then skip else if ℤ_eq (pos count) num then found i else next

unfoldable pub rule_by_number : State → ℤ → Option (ℕ × Bool)
unfolding scan
rule_by_number st num = elim (scan num [] 1 0 st.rules4) [
  | found i ↦ some (i, false)
  | passed seen count ↦ elim (scan num seen count 0 st.rules6) [
    | found i ↦ some (i, true)
    | passed _ _ ↦ none
  ]
]
