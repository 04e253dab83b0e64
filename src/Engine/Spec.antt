-- ===== src/Engine/Spec.antt =====
-- Adding and removing a rule with no wanted position, against functions that say what is meant.
use text.Mathlib.TextEquality.{eq_iff}
use mathlib.Core.List.{append-nil, append_assoc}
use better_firewall.Prelude.{
  ℕ, ◌≤◌, ◌<◌, Bool, true, false, not, List, [], ◌∷◌, ◌++◌, ◌≡◌, refl, ap, ◌∙◌, arith, Bool-cases,
  ◌⊎◌, inl, inr, if◌then◌else◌, String-eq, Option, none, some,
}
use better_firewall.Rule.{Rule, match_exact, same_tuple, match}
use better_firewall.Engine.{
  Walk, Outcome, start, is_exact, visit, tally, group_of, walk, finish, judge, set_rule_engine,
  out_added, out_updated, out_skip_add, out_deleted, out_not_found,
}
use better_firewall.Engine.Frame.{below_none-match, same_tuple_refl}
use better_firewall.Engine.Unique.{IsUnique, twin_count, twin_count-append}
use better_firewall.Engine.Passing.{
  Passed, walk-append, walk_others, place_idle, removes, judge_add, judge_remove,
}

-- Where the first twin stands.
pub find_twin : Rule → List Rule → Option (List Rule × Rule × List Rule)
find_twin nr [] = none
find_twin nr (r ∷ rs) =
    if same_tuple r nr
    then some ([], r, rs)
    else elim (find_twin nr rs) [ none ↦ none | some (pre, t, post) ↦ some (r ∷ pre, t, post) ]

-- What an add is meant to do: append a new rule, leave an equal one alone, and otherwise replace.
pub add_rule : Rule → List Rule → List Rule × Outcome
add_rule nr list = elim (find_twin nr list) [
  | none ↦ (list ++ nr ∷ [], out_added)
  | some (pre, r, post) ↦
      if is_exact (match r nr) then (list, out_skip_add) else (pre ++ nr ∷ post, out_updated)
]

-- What a removal is meant to do: take out the rule that matches exactly, or up to its comment if
-- the command has none.
pub remove_rule : Rule → List Rule → List Rule × Outcome
remove_rule nr list = elim (find_twin nr list) [
  | none ↦ (list, out_not_found)
  | some (pre, r, post) ↦
      if removes nr (match r nr) then (pre ++ post, out_deleted) else (list, out_not_found)
]

-- Either no rule of a list is a twin, or the first one splits the list.
abbrev Found : Rule → List Rule → Type 0
Found nr list =
    (find_twin nr list ≡ none) × (twin_count nr list ≡ 0)
    ⊎ ((pre : List Rule) × (r : Rule) × (post : List Rule) × (find_twin nr list
          ≡ some (pre, r, post))
        × (list ≡ pre ++ r ∷ post)
        × (same_tuple r nr ≡ true)
        × (twin_count nr pre ≡ 0))

find_twin-Found : (nr : Rule) (list : List Rule) → Found nr list
unfolding find_twin
find_twin-Found nr [] = inl (refl, refl)
find_twin-Found nr (r ∷ rs) = elim (Bool-cases (same_tuple r nr)) [
  | inl same ↦ inr ([], r, rs, rw same, refl, same, refl)
  | inr other ↦ elim (find_twin-Found nr rs) [
    | inl (e, z) ↦ inl (rw (other, find_twin) (rw e), rw other z)
    | inr (pre, t, post, e, s, same, z) ↦
        inr (r ∷ pre, t, post, rw other (rw e), ap (λ l. r ∷ l) s, same, rw other z)
  ]
]

pub set_rule_engine_lem :
    (list : List Rule) (nr : Rule) (pos : ℕ) (remove : Bool)
    → set_rule_engine list nr pos remove ≡ finish nr remove list (walk nr remove (start pos) list)
unfolding set_rule_engine
set_rule_engine_lem list nr pos remove = refl

-- The end of the function where nothing was inserted.
finish_add :
    (nr : Rule) (list : List Rule) (w : Walk)
    → w.inserted ≡ false
    → finish nr false list w ≡ (
        if w.found
        then if w.modified then (w.newrules, out_updated) else (list, out_skip_add)
        else if w.modified
        then (w.newrules ++ nr ∷ [], out_updated)
        else (w.newrules ++ nr ∷ [], out_added))
unfolding finish
finish_add nr list w i = ground arith

finish_remove :
    (nr : Rule) (list : List Rule) (w : Walk)
    → w.inserted ≡ false
    → finish nr true list w ≡ (if w.found then (w.newrules, out_deleted) else (list, out_not_found))
unfolding finish
finish_remove nr list w i = ground arith

module _ (nr : Rule) (list : List Rule) (z : twin_count nr list ≡ 0) where
  finish-none_add :
      (w : Walk) → Passed (start 0) w list → finish nr false list w ≡ (list ++ nr ∷ [], out_added)
  finish-none_add w p =
      rw (finish_add nr list w p.same_inserted, p.same_found, p.same_modified, p.kept)

  finish-none_remove :
      (w : Walk) → Passed (start 0) w list → finish nr true list w ≡ (list, out_not_found)
  finish-none_remove w p = rw (finish_remove nr list w p.same_inserted, p.same_found)

  set_rule_engine-none_add : set_rule_engine list nr 0 false ≡ (list ++ nr ∷ [], out_added)
  set_rule_engine-none_add =
      set_rule_engine_lem list nr 0 false
      ∙ finish-none_add _ (walk_others nr false (start 0) list (omega arith) z)

  set_rule_engine-none_remove : set_rule_engine list nr 0 true ≡ (list, out_not_found)
  set_rule_engine-none_remove =
      set_rule_engine_lem list nr 0 true
      ∙ finish-none_remove _ (walk_others nr true (start 0) list (omega arith) z)

visit_twin :
    (nr : Rule) (remove : Bool) (w : Walk) (r : Rule)
    → w.pos < w.count
    → visit nr remove w r ≡ judge nr remove (match r nr) r (tally (group_of nr.v6 r) (match r nr) w)
unfolding visit
visit_twin nr remove w r h = rw (place_idle nr (group_of nr.v6 r) w h)

module _ (nr r : Rule) (pre post : List Rule) where
  module _ (twin : same_tuple r nr ≡ true) where
    visit-add :
        (w : Walk)
        → Passed (start 0) w pre
        → let v = visit nr false w r in
          (v.newrules ≡ pre ++ nr ∷ [])
          × (v.found ≡ true)
          × (v.modified ≡ not (is_exact (match r nr)))
          × (v.inserted ≡ false)
          × (v.pos < v.count)
    visit-add w p =
        let t = tally (group_of nr.v6 r) (match r nr) w in
        let (k, f, m, i, a, b) =
          judge_add nr r (match r nr) t (below_none-match r nr ∙ twin) p.same_found p.same_modified
            p.same_inserted in
        rw (visit_twin nr false w r p.idle)
          (k ∙ ap (λ l. l ++ nr ∷ []) p.kept, f, m, i, rw (a, b) (omega (arith, p.idle)))

  visit-remove :
      (w : Walk)
      → Passed (start 0) w pre
      → let v = visit nr true w r in
        (v.newrules ≡ (if removes nr (match r nr) then pre else pre ++ r ∷ []))
        × (v.found ≡ removes nr (match r nr))
        × (v.inserted ≡ false)
        × (v.pos < v.count)
  visit-remove w p =
      let t = tally (group_of nr.v6 r) (match r nr) w in
      let (k, f, i, a, b) = judge_remove nr r (match r nr) t p.same_found p.same_inserted in
      rw (visit_twin nr true w r p.idle) (k ∙ rw p.kept, f, i, rw (a, b) (omega (arith, p.idle)))

  finish-twin_add :
      (w v : Walk)
      → w.newrules ≡ pre ++ nr ∷ []
      → w.found ≡ true
      → w.modified ≡ not (is_exact (match r nr))
      → w.inserted ≡ false
      → Passed w v post
      → finish nr false (pre ++ r ∷ post) v ≡ (
          if is_exact (match r nr)
          then (pre ++ r ∷ post, out_skip_add)
          else (pre ++ nr ∷ post, out_updated))
  finish-twin_add w v k f m i q =
      rw
        (
          finish_add nr (pre ++ r ∷ post) v (q.same_inserted ∙ i),
          q.same_found ∙ f,
          q.same_modified ∙ m,
          q.kept ∙ ap (λ l. l ++ post) k ∙ append_assoc pre (nr ∷ []) post,
        )
        (ground arith)

  finish-twin_remove :
      (w v : Walk)
      → w.newrules ≡ (if removes nr (match r nr) then pre else pre ++ r ∷ [])
      → w.found ≡ removes nr (match r nr)
      → w.inserted ≡ false
      → Passed w v post
      → finish nr true (pre ++ r ∷ post) v ≡ (
          if removes nr (match r nr)
          then (pre ++ post, out_deleted)
          else (pre ++ r ∷ post, out_not_found))
  finish-twin_remove w v k f i q = elim (Bool-cases (removes nr (match r nr))) [
    | inl e ↦
        let k' : w.newrules ≡ pre = k ∙ rw e in
        rw (
          finish_remove nr (pre ++ r ∷ post) v (q.same_inserted ∙ i),
          q.same_found ∙ f,
          e,
          q.kept ∙ ap (λ l. l ++ post) k',
        )
    | inr e ↦ rw (finish_remove nr (pre ++ r ∷ post) v (q.same_inserted ∙ i), q.same_found ∙ f, e)
  ]

  module _ (u : twin_count nr pre ≡ 0) (v : twin_count nr post ≡ 0) where
    set_rule_engine-twin_add :
        same_tuple r nr ≡ true
        → set_rule_engine (pre ++ r ∷ post) nr 0 false ≡ (
            if is_exact (match r nr)
            then (pre ++ r ∷ post, out_skip_add)
            else (pre ++ nr ∷ post, out_updated))
    unfolding walk
    set_rule_engine-twin_add twin =
        let w1 = walk nr false (start 0) pre in
        let p = walk_others nr false (start 0) pre (omega arith) u in
        let (k, f, m, i, idle) = visit-add twin w1 p in
        set_rule_engine_lem (pre ++ r ∷ post) nr 0 false
        ∙ ap (finish nr false (pre ++ r ∷ post)) (walk-append nr false (start 0) pre (r ∷ post))
        ∙ finish-twin_add (visit nr false w1 r) _ k f m i
            (walk_others nr false (visit nr false w1 r) post idle v)

    set_rule_engine-twin_remove : set_rule_engine (pre ++ r ∷ post) nr 0 true ≡ (
        if removes nr (match r nr)
        then (pre ++ post, out_deleted)
        else (pre ++ r ∷ post, out_not_found))
    unfolding walk
    set_rule_engine-twin_remove =
        let w1 = walk nr true (start 0) pre in
        let p = walk_others nr true (start 0) pre (omega arith) u in
        let (k, f, i, idle) = visit-remove w1 p in
        set_rule_engine_lem (pre ++ r ∷ post) nr 0 true
        ∙ ap (finish nr true (pre ++ r ∷ post)) (walk-append nr true (start 0) pre (r ∷ post))
        ∙ finish-twin_remove (visit nr true w1 r) (walk nr true (visit nr true w1 r) post) k f i
            (walk_others nr true (visit nr true w1 r) post idle v)

none_behind :
    (nr r : Rule) (pre post : List Rule)
    → same_tuple r nr ≡ true
    → twin_count nr (pre ++ r ∷ post) ≤ 1
    → twin_count nr post ≡ 0
none_behind nr r pre post twin u = ground (arith, twin_count-append nr pre (r ∷ post))

-- On a list without two rules of one tuple, an add with no position does what `add_rule` says: it
-- appends a rule of a new tuple, leaves an equal rule alone, and otherwise replaces the old rule.
pub set_rule_engine-add_rule :
    (list : List Rule) (nr : Rule)
    → IsUnique list
    → set_rule_engine list nr 0 false ≡ add_rule nr list
unfolding add_rule
set_rule_engine-add_rule list nr u = elim (find_twin-Found nr list) [
  | inl (e, z) ↦ rw (e, add_rule) (set_rule_engine-none_add nr list z)
  | inr (pre, r, post, e, s, twin, z) ↦
      rw (e, add_rule)
        (rw s (
          set_rule_engine-twin_add nr r pre post z (none_behind nr r pre post twin (rw s at (u nr)))
            twin))
]

-- On a list without two rules of one tuple, a removal does what `remove_rule` says: it takes out
-- the rule that matches exactly, or up to its comment if the command has none, and else nothing.
pub set_rule_engine-remove_rule :
    (list : List Rule) (nr : Rule)
    → IsUnique list
    → set_rule_engine list nr 0 true ≡ remove_rule nr list
unfolding remove_rule
set_rule_engine-remove_rule list nr u = elim (find_twin-Found nr list) [
  | inl (e, z) ↦ rw (e, remove_rule) (set_rule_engine-none_remove nr list z)
  | inr (pre, r, post, e, s, twin, z) ↦
      rw (e, remove_rule)
        (rw s (
          set_rule_engine-twin_remove nr r pre post z
            (none_behind nr r pre post twin (rw s at (u nr)))))
]

match_refl : (nr : Rule) → match nr nr ≡ match_exact
unfolding match
match_refl nr = ground (
  arith,
  same_tuple_refl nr,
  eq_iff nr.action nr.action,
  eq_iff nr.log nr.log,
  eq_iff nr.comment nr.comment,
)

-- On a list without two rules of one tuple, adding a rule a second time, both times with no
-- position, changes nothing and is reported as skipped.
pub add-add :
    (list : List Rule) (nr : Rule)
    → IsUnique list
    → let once = (set_rule_engine list nr 0 false).0 in
      set_rule_engine once nr 0 false ≡ (once, out_skip_add)
add-add list nr u = elim (find_twin-Found nr list) [
  | inl (_, z) ↦
      rw (set_rule_engine-none_add nr list z)
        (set_rule_engine-twin_add nr nr list [] z refl (same_tuple_refl nr) ∙ rw (match_refl nr))
  | inr (pre, r, post, _, s, twin, z) ↦
      let v = none_behind nr r pre post twin (rw s at (u nr)) in
      let first = set_rule_engine-twin_add nr r pre post z v twin in
      let again = set_rule_engine-twin_add nr nr pre post z v (same_tuple_refl nr) in
      rw s (elim (Bool-cases (is_exact (match r nr))) [
        | inl e ↦
            let same : set_rule_engine (pre ++ r ∷ post) nr 0 false
                ≡ (pre ++ r ∷ post, out_skip_add) =
              first ∙ rw e in
            rw same same
        | inr e ↦
            let changed : set_rule_engine (pre ++ r ∷ post) nr 0 false
                ≡ (pre ++ nr ∷ post, out_updated) =
              first ∙ rw e in
            rw changed (again ∙ rw (match_refl nr))
      ])
]

-- A rule whose tuple the list does not have, added with no position and then removed, leaves the
-- list as it was.
pub remove-add :
    (list : List Rule) (nr : Rule)
    → twin_count nr list ≡ 0
    → set_rule_engine (set_rule_engine list nr 0 false).0 nr 0 true ≡ (list, out_deleted)
remove-add list nr z =
    rw (set_rule_engine-none_add nr list z)
      (set_rule_engine-twin_remove nr nr list [] z refl ∙ rw (match_refl nr, append-nil list))
