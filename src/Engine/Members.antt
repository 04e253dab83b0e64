-- ===== src/Engine/Members.antt =====
-- The engine puts no rule into a list but the given one.
use better_firewall.Prelude.{ℕ, Bool, List, [], ◌∷◌, arith, inl, inr, All, All-append}
use better_firewall.Rule.{Rule, match}
use better_firewall.Engine.{
  Walk, Group, start, place, judge, visit, walk, finish, tally, group_of, set_rule_engine,
}
use better_firewall.Engine.Frame.{judge_cases}

module _ (P : Rule → Type 0) (nr : Rule) (new : P nr) where
  All-place : (g : Group) (w : Walk) → All P w.newrules → All P (place nr g w).newrules
  unfolding place
  All-place g w h = ground (arith, All-append P w.newrules (nr ∷ []) h (new, tt))

  All-judge :
      (remove : Bool) (r : Rule) (w : Walk)
      → All P w.newrules
      → P r
      → All P (judge nr remove (match r nr) r w).newrules
  All-judge remove r w h q = elim (judge_cases nr remove (match r nr) r w) [
    | inl e ↦ rw e (All-append P w.newrules (r ∷ []) h (q, tt))
    | inr (_, inl e) ↦ rw e h
    | inr (_, inr e) ↦ rw e (All-append P w.newrules (nr ∷ []) h (new, tt))
  ]

  All-walk :
      (remove : Bool) (w : Walk) (rs : List Rule)
      → All P w.newrules
      → All P rs
      → All P (walk nr remove w rs).newrules
  unfolding walk visit
  All-walk remove w [] h k = h
  All-walk remove w (r ∷ rs) h (q, k) =
      let g = group_of nr.v6 r in
      All-walk remove (visit nr remove w r) rs
        (All-judge remove r (tally g (match r nr) (place nr g w)) (All-place g w h) q) k

  All-finish :
      (remove : Bool) (list : List Rule) (w : Walk)
      → All P w.newrules
      → All P list
      → All P (finish nr remove list w).0
  unfolding finish
  All-finish remove list w h k = ground (arith, All-append P w.newrules (nr ∷ []) h (new, tt))

  -- What holds of the given rule and of every rule of the list holds of every rule of the result.
  pub All-set_rule_engine :
      (list : List Rule) (pos : ℕ) (remove : Bool)
      → All P list
      → All P (set_rule_engine list nr pos remove).0
  unfolding set_rule_engine
  All-set_rule_engine list pos remove k =
      All-finish remove list (walk nr remove (start pos) list)
        (All-walk remove (start pos) list tt k) k
