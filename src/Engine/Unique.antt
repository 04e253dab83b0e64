-- ===== src/Engine/Unique.antt =====
-- The engine keeps a list in which no two rules have the same tuple.
use better_firewall.Prelude.{
  ℕ, ◌+◌, ◌≤◌, ◌<◌, Bool, true, false, not, List, [], ◌∷◌, ◌++◌, ◌≡◌, refl, sym, ap, ◌∙◌, arith,
  Bool-cases, inl, inr, keep, keep-append, if◌then◌else◌, length, length-append, subst,
}
use better_firewall.Rule.{Rule, MatchCode, same_tuple, match}
use better_firewall.Rule.Tuple.{same_tuple_iff}
use better_firewall.Engine.{
  Walk, Group, start, below_none, place, tally, group_of, judge, visit, walk, finish,
  set_rule_engine,
}
use better_firewall.Engine.Frame.{
  others, same_tuple_refl, judge_cases, below_none-match, others-set_rule_engine,
}

-- The rules of one tuple, and how many there are.
abbrev pub twins : Rule → List Rule → List Rule
twins nr = keep (λ r. same_tuple r nr)

abbrev pub twin_count : Rule → List Rule → ℕ
twin_count nr rs = length (twins nr rs)

-- No tuple occurs twice in the list.
abbrev pub IsUnique : List Rule → Type 0
IsUnique rs = (x : Rule) → twin_count x rs ≤ 1

pub twin_count-append :
    (nr : Rule) (xs ys : List Rule) → twin_count nr (xs ++ ys) ≡ twin_count nr xs + twin_count nr ys
twin_count-append nr xs ys =
    ap length (keep-append (λ r. same_tuple r nr) xs ys) ∙ length-append (twins nr xs) (twins nr ys)

-- Rules of one tuple have the same twins; rules of different tuples share none.
pub same_tuple-congr : (x nr r : Rule) → same_tuple x nr ≡ true → same_tuple r x ≡ same_tuple r nr
same_tuple-congr x nr r h = elim (Bool-cases (same_tuple r x)) [
  | inl a ↦ a ∙ sym ((same_tuple_iff r nr).1 ((same_tuple_iff r x).0 a ∙ (same_tuple_iff x nr).0 h))
  | inr a ↦ elim (Bool-cases (same_tuple r nr)) [
    | inl b ↦
        let c =
          (same_tuple_iff r x).1 ((same_tuple_iff r nr).0 b ∙ sym ((same_tuple_iff x nr).0 h)) in
        cc
    | inr b ↦ cc
  ]
]

twin_count-congr :
    (x nr : Rule) (rs : List Rule) → same_tuple x nr ≡ true → twin_count x rs ≡ twin_count nr rs
twin_count-congr x nr [] h = refl
twin_count-congr x nr (r ∷ rs) h =
    ground (arith, same_tuple-congr x nr r h, twin_count-congr x nr rs h)

twin_of_other :
    (x nr r : Rule) → same_tuple x nr ≡ false → same_tuple r x ≡ true → not (same_tuple r nr) ≡ true
twin_of_other x nr r h k = elim (Bool-cases (same_tuple r nr)) [
  | inl b ↦
      let c =
        (same_tuple_iff x nr).1 (sym ((same_tuple_iff r x).0 k) ∙ (same_tuple_iff r nr).0 b) in
      cc
  | inr b ↦ ground arith
]

twins-others :
    (x nr : Rule) (rs : List Rule) → same_tuple x nr ≡ false → twins x (others nr rs) ≡ twins x rs
twins-others x nr [] h = refl
twins-others x nr (r ∷ rs) h = ground (arith, twin_of_other x nr r h, twins-others x nr rs h)

twin_count_self :
    (nr : Rule) (rs : List Rule) → twin_count nr (rs ++ nr ∷ []) ≡ twin_count nr rs + 1
twin_count_self nr rs = ground (arith, twin_count-append nr rs (nr ∷ []), same_tuple_refl nr)

-- What the loop knows of the rules with the tuple of `nr`, after a part of the list.
record Counted (remove : Bool) (nr : Rule) (w : Walk) : Type 0 where
  bounded : twin_count nr w.newrules ≤ w.matches + (if w.inserted then 1 else 0)
  missed : remove ≡ false → w.inserted ≡ false → w.found ≡ false → w.matches ≡ 0
  later : w.inserted ≡ true → w.pos < w.count

-- The same in the middle of a round.
record Placed (remove : Bool) (nr : Rule) (w : Walk) : Type 0 where
  bounded : twin_count nr w.newrules ≤ w.matches + (if w.inserted then 1 else 0)
  missed : remove ≡ false → w.inserted ≡ false → w.found ≡ false → w.matches ≡ 0
  later : w.inserted ≡ true → w.pos ≤ w.count

start-Counted : (remove : Bool) (nr : Rule) (pos : ℕ) → Counted remove nr (start pos)
start-Counted remove nr pos = ground arith

place-Placed :
    (remove : Bool) (nr : Rule) (g : Group) (w : Walk)
    → Counted remove nr w
    → Placed remove nr (place nr g w)
unfolding place
place-Placed remove nr g w h = ground (arith, twin_count_self nr w.newrules)

judge_missed :
    (nr : Rule) (remove : Bool) (c : MatchCode) (r : Rule) (w : Walk)
    → remove ≡ false
    → w.inserted ≡ false
    → (judge nr remove c r w).found ≡ false
    → (below_none c ≡ false) × (w.found ≡ false)
unfolding judge
judge_missed nr remove c r w a b f = ground arith

judge_keeps :
    (nr : Rule) (remove : Bool) (c : MatchCode) (r : Rule) (w : Walk)
    → let v = judge nr remove c r w in
      (v.inserted ≡ w.inserted) × (v.matches ≡ w.matches) × (v.pos ≡ w.pos) × (v.count ≡ w.count)
unfolding judge
judge_keeps nr remove c r w = ground arith

twin_count-judge :
    (nr : Rule) (remove : Bool) (r : Rule) (w : Walk)
    → twin_count nr (judge nr remove (match r nr) r w).newrules
      ≤ twin_count nr w.newrules + (if below_none (match r nr) then 1 else 0)
twin_count-judge nr remove r w = elim (judge_cases nr remove (match r nr) r w) [
  | inl e ↦ rw (e, below_none-match r nr) (ground (arith, twin_count-append nr w.newrules (r ∷ [])))
  | inr (twin, inl e) ↦ rw e (omega arith)
  | inr (twin, inr e) ↦ rw (e, twin) (omega (arith, twin_count_self nr w.newrules))
]

judge-Counted :
    (remove : Bool) (nr r : Rule) (g : Group) (w : Walk)
    → Placed remove nr w
    → Counted remove nr (judge nr remove (match r nr) r (tally g (match r nr) w))
judge-Counted remove nr r g w h = record {
  bounded =
      let t = tally g (match r nr) w in
      let (i, m, _, _) = judge_keeps nr remove (match r nr) r t in
      rw (i, m) (ground (arith, twin_count-judge nr remove r t));
  missed = λ a b f.
      let t = tally g (match r nr) w in
      let (i, m, _, _) = judge_keeps nr remove (match r nr) r t in
      let (none', found) = judge_missed nr remove (match r nr) r t a (sym i ∙ b) f in
      m ∙ rw none' (h.missed a (sym i ∙ b) found);
  later = λ b.
      let t = tally g (match r nr) w in
      let (i, _, p, c) = judge_keeps nr remove (match r nr) r t in
      rw (p, c) (omega (arith, h.later (sym i ∙ b)));
}

visit-Counted :
    (remove : Bool) (nr : Rule) (w : Walk) (r : Rule)
    → Counted remove nr w
    → Counted remove nr (visit nr remove w r)
unfolding visit
visit-Counted remove nr w r h =
    judge-Counted remove nr r (group_of nr.v6 r) (place nr (group_of nr.v6 r) w)
      (place-Placed remove nr (group_of nr.v6 r) w h)

matches-place : (nr : Rule) (g : Group) (w : Walk) → (place nr g w).matches ≡ w.matches
unfolding place
matches-place nr g w = ground arith

matches-visit :
    (remove : Bool) (nr : Rule) (w : Walk) (r : Rule)
    → (visit nr remove w r).matches ≡ w.matches + twin_count nr (r ∷ [])
unfolding visit
matches-visit remove nr w r =
    let g = group_of nr.v6 r in
    let t = tally g (match r nr) (place nr g w) in
    (judge_keeps nr remove (match r nr) r t).1
    ∙ ground (arith, below_none-match r nr, matches-place nr g w)

-- `matches` counts the rules with the tuple of `nr`.
matches-walk :
    (remove : Bool) (nr : Rule) (w : Walk) (rs : List Rule)
    → (walk nr remove w rs).matches ≡ w.matches + twin_count nr rs
unfolding walk
matches-walk remove nr w [] = omega arith
matches-walk remove nr w (r ∷ rs) = omega (
  arith,
  matches-walk remove nr (visit nr remove w r) rs,
  matches-visit remove nr w r,
  twin_count-append nr (r ∷ []) rs,
)

walk-Counted :
    (remove : Bool) (nr : Rule) (w : Walk) (rs : List Rule)
    → Counted remove nr w
    → Counted remove nr (walk nr remove w rs)
unfolding walk
walk-Counted remove nr w [] h = h
walk-Counted remove nr w (r ∷ rs) h =
    walk-Counted remove nr (visit nr remove w r) rs (visit-Counted remove nr w r h)

finish-twin_count :
    (remove : Bool) (nr : Rule) (list : List Rule) (w : Walk)
    → Counted remove nr w
    → w.matches ≤ 1
    → twin_count nr list ≤ 1
    → twin_count nr (finish nr remove list w).0 ≤ 1
unfolding finish
finish-twin_count remove nr list w h m l = ground (arith, twin_count_self nr w.newrules)

pub set_rule_engine-twin_count :
    (list : List Rule) (nr : Rule) (pos : ℕ) (remove : Bool)
    → twin_count nr list ≤ 1
    → twin_count nr (set_rule_engine list nr pos remove).0 ≤ 1
unfolding set_rule_engine
set_rule_engine-twin_count list nr pos remove u =
    finish-twin_count remove nr list (walk nr remove (start pos) list)
      (walk-Counted remove nr (start pos) list (start-Counted remove nr pos))
      (omega (arith, matches-walk remove nr (start pos) list)) u

-- If no two rules of the list have the same tuple, then no two rules of the result have, whatever
-- the operation, the position and the outcome.
pub set_rule_engine-IsUnique :
    (list : List Rule) (nr : Rule) (pos : ℕ) (remove : Bool)
    → IsUnique list
    → IsUnique (set_rule_engine list nr pos remove).0
set_rule_engine-IsUnique list nr pos remove u x = elim (Bool-cases (same_tuple x nr)) [
  | inl same ↦
      rw (twin_count-congr x nr _ same) (set_rule_engine-twin_count list nr pos remove (u nr))
  | inr other ↦
      subst (λ l. length l ≤ 1)
        (sym (twins-others x nr list other)
          ∙ ap (twins x) (sym (others-set_rule_engine list nr pos remove))
          ∙ twins-others x nr _ other)
        (u x)
]
