-- ===== src/Engine/Frame.antt =====
-- The engine leaves the rules of every other tuple as they are, in the same order.
use mathlib.Core.List.{append-nil, append_assoc}
use better_firewall.Prelude.{
  ℕ, Bool, true, false, not, List, [], ◌∷◌, ◌++◌, ◌≡◌, refl, sym, ap, ◌∙◌, arith, ◌⊎◌, inl, inr,
  keep, keep-append,
}
use better_firewall.Rule.{Rule, MatchCode, match_none, same_tuple, match}
use better_firewall.Rule.Tuple.{same_tuple_iff}
use better_firewall.Engine.{
  Walk, Group, start, below_none, place, judge, visit, walk, finish, set_rule_engine,
}

-- The rules of other tuples than `nr`'s.
abbrev pub others : Rule → List Rule → List Rule
others nr = keep (λ r. not (same_tuple r nr))

pub same_tuple_refl : (r : Rule) → same_tuple r r ≡ true
same_tuple_refl r = (same_tuple_iff r r).1 refl

pub match_of_other : (r nr : Rule) → same_tuple r nr ≡ false → match r nr ≡ match_none
unfolding match
match_of_other r nr h = rw h

others_self : (nr : Rule) (rs : List Rule) → others nr (rs ++ nr ∷ []) ≡ others nr rs
others_self nr rs = keep-append _ rs (nr ∷ []) ∙ rw (same_tuple_refl nr) (append-nil _)

others-place :
    (nr : Rule) (g : Group) (w : Walk) → others nr (place nr g w).newrules ≡ others nr w.newrules
unfolding place
others-place nr g w = ground (arith, others_self nr w.newrules)

-- What one round does to the new list; a rule of another tuple is always kept.
pub judge_cases :
    (nr : Rule) (remove : Bool) (c : MatchCode) (r : Rule) (w : Walk)
    → ((judge nr remove c r w).newrules ≡ w.newrules ++ r ∷ [])
      ⊎ (below_none c ≡ true)
        × (((judge nr remove c r w).newrules ≡ w.newrules)
            ⊎ ((judge nr remove c r w).newrules ≡ w.newrules ++ nr ∷ []))
unfolding judge
judge_cases nr remove c r w = ground arith

pub below_none-match : (r nr : Rule) → below_none (match r nr) ≡ same_tuple r nr
unfolding match
below_none-match r nr = ground arith

others-judge :
    (nr : Rule) (remove : Bool) (r : Rule) (w : Walk)
    → others nr (judge nr remove (match r nr) r w).newrules
      ≡ others nr w.newrules ++ others nr (r ∷ [])
others-judge nr remove r w = elim (judge_cases nr remove (match r nr) r w) [
  | inl e ↦ rw e (keep-append _ w.newrules (r ∷ []))
  | inr (twin, inl e) ↦ rw (e, sym (below_none-match r nr) ∙ twin) (sym (append-nil _))
  | inr (twin, inr e) ↦
      rw (e, sym (below_none-match r nr) ∙ twin) (others_self nr w.newrules ∙ sym (append-nil _))
]

others-visit :
    (nr : Rule) (remove : Bool) (w : Walk) (r : Rule)
    → others nr (visit nr remove w r).newrules ≡ others nr w.newrules ++ others nr (r ∷ [])
unfolding visit
others-visit nr remove w r =
    others-judge nr remove r _ ∙ ap (λ l. l ++ others nr (r ∷ [])) (others-place nr _ w)

others-walk :
    (nr : Rule) (remove : Bool) (w : Walk) (rs : List Rule)
    → others nr (walk nr remove w rs).newrules ≡ others nr w.newrules ++ others nr rs
unfolding walk
others-walk nr remove w [] = sym (append-nil _)
others-walk nr remove w (r ∷ rs) =
    others-walk nr remove (visit nr remove w r) rs
    ∙ ap (λ l. l ++ others nr rs) (others-visit nr remove w r)
    ∙ append_assoc (others nr w.newrules) (others nr (r ∷ [])) (others nr rs)
    ∙ ap (◌++◌ (others nr w.newrules)) (sym (keep-append (λ x. not (same_tuple x nr)) (r ∷ []) rs))

others-finish :
    (nr : Rule) (remove : Bool) (list : List Rule) (w : Walk)
    → others nr w.newrules ≡ others nr list
    → others nr (finish nr remove list w).0 ≡ others nr list
unfolding finish
others-finish nr remove list w h = ground (arith, others_self nr w.newrules)

-- Whatever the operation, the position and the outcome, the rules whose tuple differs from that of
-- the given rule are the same before and after, in the same order.
pub others-set_rule_engine :
    (list : List Rule) (nr : Rule) (pos : ℕ) (remove : Bool)
    → others nr (set_rule_engine list nr pos remove).0 ≡ others nr list
unfolding set_rule_engine
others-set_rule_engine list nr pos remove =
    others-finish nr remove list (walk nr remove (start pos) list)
      (others-walk nr remove (start pos) list)
