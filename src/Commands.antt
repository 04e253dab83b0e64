-- ===== src/Commands.antt =====
-- internal/cli/commands_rules.go: the commands that add, insert, prepend and delete rules.
pub mod WellFormed
pub mod Removal
use better_firewall.Prelude.{
  ℕ, suc, zero, ◌+◌, ◌-◌, Bool, true, false, not, ◌&&◌, ◌||◌, List, [], ◌∷◌, ◌++◌, String, Option,
  none, some, ltb, leb, ◌==◌, ℕ-eq, String-eq, if◌then◌else◌, map, length, get_elem?, take, drop,
  keep, ◌<>◌,
}
use better_firewall.Prelude.Int.{ℤ, pos, negsuc, ℤ_eq, ltb_ℤ, leb_ℤ, pos_part, ◌+ℤ◌, ◌-ℤ◌}
use better_firewall.Rule.{Rule, match, match_exact, expired, set_v6, clone}
use better_firewall.Rule.Keys.{app_tuple}
use better_firewall.Store.{State, ThreatBan}
use better_firewall.Numbering.{is_app, contains, deduped_count, rule_by_number, mark_families}
use better_firewall.Engine.{
  Outcome, out_added, out_deleted, out_updated, out_inserted, out_skip_add, out_skip_insert,
  out_not_found, is_exact, set_rule_engine,
}

pub data OpKind : Type 0 where
  op_add op_delete op_insert op_prepend : OpKind

abbrev pub is_delete : OpKind → Bool
is_delete op_delete = true
is_delete _ = false

abbrev pub is_prepend : OpKind → Bool
is_prepend op_prepend = true
is_prepend _ = false

abbrev pub is_insert : OpKind → Bool
is_insert op_insert = true
is_insert _ = false

-- The messages of `Errorf`.
pub data Error : Type 0 where
  invalid_position : ℤ → Error
  insert_and_delete : Error
  ipv6_not_supported : Error
  invalid_ip_version : String → Error
  no_such_rule : ℤ → Error

pub data Result {ℓ} (A : Type ℓ) : Type ℓ where
  ok : A → Result A
  err : Error → Result A

infixl 5 ◌>>=◌
abbrev pub ◌>>=◌ {ℓ κ} : {A : Type ℓ} {B : Type κ} → Result A → (A → Result B) → Result B
ok a >>= f = f a
err e >>= f = err e

pub outcome_text : Outcome → Bool → String
outcome_text out_skip_add live = "Skipping adding existing rule"
outcome_text out_skip_insert live = "Skipping inserting existing rule"
outcome_text out_not_found live =
    if not live then "Rules updated" else "Could not delete non-existent rule"
outcome_text out_added live = if not live then "Rules updated" else "Rule added"
outcome_text out_deleted live = if not live then "Rules updated" else "Rule deleted"
outcome_text out_inserted live = if not live then "Rules updated" else "Rule inserted"
outcome_text out_updated live = if not live then "Rules updated" else "Rule updated"

-- `outcomeString`.
unfoldable pub outcome_string : Outcome → Bool → Bool → String
unfolding outcome_text
outcome_string oc v6 live = outcome_text oc live <> (if v6 then " (v6)" else "")

abbrev pub minus_one : ℤ
minus_one = negsuc 0

-- `v4Position`.
unfoldable pub v4_position : ℤ → ℕ → ℕ → Result ℤ
v4_position p count num_v4 =
    if ℤ_eq p minus_one
    then if count == 0 && num_v4 == 0 then ok (pos 0) else ok (pos 1)
    else if ltb_ℤ (pos num_v4) p
    then err (invalid_position p)
    else ok p

-- `v6Position`.
unfoldable pub v6_position : ℤ → ℕ → ℕ → ℕ → Result ℤ
v6_position p count num_v4 num_v6 =
    if ℤ_eq p minus_one
    then if count == 0 && num_v6 == 0 then ok (pos 0) else ok (pos 1)
    else if ltb_ℤ (pos num_v4) p
    then ok (p -ℤ pos num_v4)
    else if not (ℤ_eq p (pos 0)) && leb_ℤ p (pos num_v4)
    then err (invalid_position p)
    else ok p

abbrev pub rules_of : State → Bool → List Rule
rules_of st v6 = if v6 then st.rules6 else st.rules4

abbrev pub with_rules : State → Bool → List Rule → State
with_rules st v6 list = if v6 then record st { rules6 = list } else record st { rules4 = list }

abbrev pub skips : Outcome → Bool
skips out_not_found = true
skips out_skip_add = true
skips out_skip_insert = true
skips _ = false

abbrev pub restamp : Rule → Rule → Rule
restamp nr r = record r { action = nr.action; log = nr.log }

-- The rules that an application delete stands for, with the action and log of the command.
unfoldable pub app_targets : Rule → List Rule → List Rule
app_targets nr list = map (restamp nr) (keep (λ r. app_tuple r == app_tuple nr) list)

-- The loop over the targets; a rule that is skipped ends it.
unfoldable pub apply_targets : Bool → State → ℕ → Bool → Bool → String → List Rule → State × String
apply_targets live st p v6 remove last [] = (st, last)
apply_targets live st p v6 remove last (t ∷ ts) =
    let (list, oc) = set_rule_engine (rules_of st v6) t p remove in
    let rest =
      apply_targets live (with_rules st v6 list) p v6 remove (outcome_string oc v6 live) ts in
    if skips oc then (st, outcome_string oc v6 live) else rest

-- `applyHalf`. An error is the empty text of the source.
unfoldable pub apply_half : Bool → State → Rule → ℤ → Bool → OpKind → Result (State × String)
apply_half live st rule p v6 kind =
    let list = rules_of st v6 in
    let nr = set_v6 (clone rule) v6 in
    let targets = app_targets nr list in
    if ltb_ℤ p (pos 0) || ltb_ℤ (pos (length list)) p
    then err (invalid_position p)
    else if ltb_ℤ (pos 0) p && is_delete kind
    then err insert_and_delete
    else if is_delete kind && is_app nr
    then if length targets == 0
      then ok (st, outcome_string out_not_found v6 live)
      else ok (apply_targets live st (pos_part p) v6 (is_delete kind) "" targets)
    else ok (apply_targets live st (pos_part p) v6 (is_delete kind) "" (nr ∷ []))

-- How many of the rules repeat an application group that stands before them.
pub group_offset : List String → List Rule → ℕ
group_offset seen [] = 0
group_offset seen (r ∷ rs) =
    (if is_app r && contains (app_tuple r) seen then 1 else 0)
    + group_offset
        (if is_app r && not (contains (app_tuple r) seen) then app_tuple r ∷ seen else seen) rs

-- The place, from 1 on, of the first rule that matches exactly; 0 if there is none.
pub exact_place : ℕ → Rule → List Rule → ℕ
exact_place count m [] = 0
exact_place count m (r ∷ rs) =
    let rest = exact_place (count + 1) m rs in if is_exact (match r m) then count else rest

-- `findOtherPosition`.
unfoldable pub find_other_position : State → ℤ → Bool → ℕ
unfolding group_offset exact_place
find_other_position st position v6 =
    let src = rules_of st v6 in
    let other = rules_of st (not v6) in
    if ltb_ℤ position (pos 1) || ltb_ℤ (pos (length src)) position
    then 0
    else let p = pos_part position in
      elim (get_elem? src (p - 1 + group_offset [] (take p src))) [
        | none ↦ 0
        | some r ↦ exact_place 1 (set_v6 (clone r) (not v6)) other
      ]

-- The v4 position of a dual rule (the first part of `applyDual`).
unfoldable pub dual_pos4 : State → ℤ → ℕ → ℕ → OpKind → ℤ
dual_pos4 st user_pos count num_v4 kind =
    if ℤ_eq user_pos minus_one
    then if count == 0 && num_v4 == 0 then pos 0 else pos 1
    else if not (is_delete kind) && ltb_ℤ (pos num_v4) user_pos
    then pos (find_other_position st (user_pos -ℤ pos num_v4 +ℤ pos count) true)
    else user_pos

-- `*numV4` after the v4 half.
unfoldable pub dual_num_v4 : State → ℤ → ℕ → OpKind → ℕ
dual_num_v4 st user_pos num_v4 kind =
    if not (is_delete kind) && ltb_ℤ (pos 0) user_pos then deduped_count st.rules4 else num_v4

-- The v6 position before the last adjustment; `num_v4` is the number after the v4 half.
pub dual_twin6 : State → ℤ → ℤ → ℕ → ℕ → ℕ → OpKind → ℤ
dual_twin6 st user_pos pos4 count num_v4 num_v6 kind =
    let pos6 = if not (is_delete kind) && ltb_ℤ (pos 0) user_pos then user_pos +ℤ pos 1 else pos4 in
    let p = find_other_position st pos6 false in
    if ℤ_eq user_pos minus_one
    then if count == 0 && num_v6 == 0 then pos 0 else pos 1
    else if not (is_delete kind) && ltb_ℤ (pos 0) pos6 && leb_ℤ pos6 (pos num_v4)
    then if ltb 0 p then pos p -ℤ pos count else pos 0
    else pos6

unfoldable pub dual_pos6 : State → ℤ → ℤ → ℕ → ℕ → ℕ → OpKind → ℤ
unfolding dual_twin6
dual_pos6 st user_pos pos4 count num_v4 num_v6 kind =
    let pos6 = dual_twin6 st user_pos pos4 count num_v4 num_v6 kind in
    if not (is_delete kind) && ltb_ℤ (pos num_v4) pos6 && not (ℤ_eq user_pos minus_one)
    then pos6 -ℤ pos num_v4
    else pos6

-- `applyDual`, with the new `*numV4`.
unfoldable pub apply_dual :
    Bool → State → Rule → ℤ → ℕ → ℕ → ℕ → OpKind → Result (State × ℕ × String)
apply_dual live st nr user_pos count num_v4 num_v6 kind =
    let pos4 = dual_pos4 st user_pos count num_v4 kind in
    apply_half live st nr pos4 false kind >>= λ half4.
    let st4 = half4.0 in
    let num = dual_num_v4 st4 user_pos num_v4 kind in
    let pos6 = dual_pos6 st4 user_pos pos4 count num num_v6 kind in
    apply_half live st4 nr pos6 true kind >>= λ half6. ok (half6.0, num, half4.1 <> "\n" <> half6.1)

-- `ParsedRuleOp`; `rules` are the rules that the op stands for: the parsed one, or those of the
-- application profiles.
pub record RuleOp : Type 0 where
  pub kind : OpKind
  pub num : ℤ
  pub ip_type : String

abbrev keep_num : ℕ → State × String → State × ℕ × String
keep_num num (st, line) = (st, num, line)

-- The branch for a rule of the first family.
unfoldable pub run_v4 : Bool → RuleOp → State → ℕ → ℕ → Rule → ℤ → Result (State × ℕ × String)
run_v4 live op st num_v4 count nr p = v4_position p count num_v4 >>= λ q.
    apply_half live st nr q false op.kind >>= λ half. ok (keep_num num_v4 half)

-- The branch for a rule of the second family.
pub run_v6 : Bool → RuleOp → State → ℕ → ℕ → ℕ → Rule → ℤ → Result (State × ℕ × String)
run_v6 live op st num_v4 num_v6 count nr p = v6_position p count num_v4 num_v6 >>= λ q.
    apply_half live st nr q true op.kind >>= λ half. ok (keep_num num_v4 half)

-- One round of the loop of `runRuleOp`; `kernel6` is `ipv6Available`.
unfoldable pub run_one :
    Bool → Bool → RuleOp → ℕ → State → ℕ → ℕ → Rule → Result (State × ℕ × String)
run_one live kernel6 op num_v6 st num_v4 count nr =
    let p = if is_prepend op.kind then minus_one else op.num in
    if is_insert op.kind && ltb_ℤ (pos (num_v4 + num_v6)) p
    then err (invalid_position p)
    else if op.ip_type == "v4"
    then run_v4 live op st num_v4 count nr p
    else if op.ip_type == "v6"
    then if not st.ipv6 || not kernel6
      then err ipv6_not_supported
      else run_v6 live op st num_v4 num_v6 count nr p
    else if op.ip_type == "both"
    then if st.ipv6
      then apply_dual live st nr p count num_v4 num_v6 op.kind
      else run_v4 live op st num_v4 count nr p
    else err (invalid_ip_version op.ip_type)

-- The loop of `runRuleOp`, up to the commit: the state to commit and the line to print.
unfoldable pub run_rules :
    Bool → Bool → RuleOp → ℕ → State → ℕ → ℕ → String → List Rule → Result (State × String)
run_rules live kernel6 op num_v6 st num_v4 count last [] = ok (st, last)
run_rules live kernel6 op num_v6 st num_v4 count last (nr ∷ rules) =
    run_one live kernel6 op num_v6 st num_v4 count nr >>= λ done.
    run_rules live kernel6 op num_v6 done.0 done.1 (count + 1) done.2 rules

unfoldable pub run_rule_op : Bool → Bool → RuleOp → State → List Rule → Result (State × String)
run_rule_op live kernel6 op loaded rules =
    let st = mark_families loaded in
    run_rules live kernel6 op (deduped_count st.rules6) st (deduped_count st.rules4) 0 "" rules

-- A list without its element at an index.
unfoldable pub remove_at : ℕ → List Rule → List Rule
remove_at i list = take i list ++ drop (i + 1) list

-- `deleteByNumber` behind the prompt: an application rule takes its whole group with it.
unfoldable pub delete_at : State → ℕ → Bool → Rule → State
unfolding remove_at
delete_at st i v6 r =
    let list = rules_of st v6 in
    if is_app r
    then with_rules st v6 (keep (λ x. not (app_tuple x == app_tuple r)) list)
    else with_rules st v6 (remove_at i list)

unfoldable pub delete_by_number : Bool → State → ℤ → Result (State × String)
delete_by_number live loaded n =
    let st = mark_families loaded in
    if leb_ℤ n (pos 0) || ltb_ℤ (pos (length st.rules4 + length st.rules6)) n
    then err (no_such_rule n)
    else elim (rule_by_number st n) [
      | none ↦ err (no_such_rule n)
      | some (i, v6) ↦ elim (get_elem? (rules_of st v6) i) [
        | none ↦ err (no_such_rule n)
        | some r ↦ ok (delete_at st i v6 r, outcome_string out_deleted v6 live)
      ]
    ]

-- `sweepExpired`.
unfoldable pub sweep_expired : ℤ → State → State
sweep_expired now st = record st {
  rules4 = keep (λ r. not (expired r now)) st.rules4;
  rules6 = keep (λ r. not (expired r now)) st.rules6;
  bans = keep (λ b. ltb_ℤ now b.expires_at) st.bans;
}
