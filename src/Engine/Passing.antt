-- ===== src/Engine/Passing.antt =====
-- The engine's loop past the wanted position: over rules of other tuples, and over one twin.
use mathlib.Core.List.{append-nil, append_assoc}
use better_firewall.Prelude.{
  ◌<◌, Bool, true, false, not, List, [], ◌∷◌, ◌++◌, ◌≡◌, refl, sym, ap, ◌∙◌, arith, if◌then◌else◌,
  ◌==◌, String-eq, ◌&&◌, ◌||◌,
}
use better_firewall.Rule.{Rule, MatchCode, match_none, same_tuple}
use better_firewall.Engine.{
  Walk, Group, below_none, is_exact, is_comment, place, judge, visit, group_of, walk,
}
use better_firewall.Engine.Frame.{match_of_other}
use better_firewall.Engine.Unique.{twin_count}

pub walk-append :
    (nr : Rule) (remove : Bool) (w : Walk) (xs ys : List Rule)
    → walk nr remove w (xs ++ ys) ≡ walk nr remove (walk nr remove w xs) ys
unfolding walk
walk-append nr remove w [] ys = refl
walk-append nr remove w (x ∷ xs) ys = walk-append nr remove (visit nr remove w x) xs ys

-- Past the wanted position nothing is inserted.
pub place_idle : (nr : Rule) (g : Group) (w : Walk) → w.pos < w.count → place nr g w ≡ w
unfolding place
place_idle nr g w h = ground arith

-- What the loop has done to a walk, apart from `last`.
pub record Passed (w v : Walk) (rs : List Rule) : Type 0 where
  pub kept : v.newrules ≡ w.newrules ++ rs
  pub same_found : v.found ≡ w.found
  pub same_modified : v.modified ≡ w.modified
  pub same_inserted : v.inserted ≡ w.inserted
  pub same_matches : v.matches ≡ w.matches
  pub idle : v.pos < v.count

pub judge_none :
    (nr : Rule) (remove : Bool) (r : Rule) (w : Walk)
    → judge nr remove match_none r w ≡ record w { newrules = w.newrules ++ r ∷ [] }
unfolding judge
judge_none nr remove r w = refl

visit_other :
    (nr : Rule) (remove : Bool) (w : Walk) (r : Rule)
    → w.pos < w.count
    → same_tuple r nr ≡ false
    → Passed w (visit nr remove w r) (r ∷ [])
unfolding visit
visit_other nr remove w r h other =
    rw (match_of_other r nr other, place_idle nr (group_of nr.v6 r) w h, judge_none nr remove r)
      (record {
        kept = refl;
        same_found = refl;
        same_modified = refl;
        same_inserted = refl;
        same_matches = refl;
        idle = omega arith;
      })

Passed-trans :
    (u v w : Walk) (xs ys : List Rule) → Passed u v xs → Passed v w ys → Passed u w (xs ++ ys)
Passed-trans u v w xs ys p q = record {
  kept = q.kept ∙ ap (λ l. l ++ ys) p.kept ∙ append_assoc u.newrules xs ys;
  same_found = q.same_found ∙ p.same_found;
  same_modified = q.same_modified ∙ p.same_modified;
  same_inserted = q.same_inserted ∙ p.same_inserted;
  same_matches = q.same_matches ∙ p.same_matches;
  idle = q.idle;
}

pub not_twin : (nr r : Rule) (rs : List Rule) → twin_count nr (r ∷ rs) ≡ 0 → same_tuple r nr ≡ false
not_twin nr r rs t = ground arith

pub none_after : (nr r : Rule) (rs : List Rule) → twin_count nr (r ∷ rs) ≡ 0 → twin_count nr rs ≡ 0
none_after nr r rs t = ground arith

-- Past the wanted position the rules of other tuples are all kept, and nothing else changes.
pub walk_others :
    (nr : Rule) (remove : Bool) (w : Walk) (rs : List Rule)
    → w.pos < w.count
    → twin_count nr rs ≡ 0
    → Passed w (walk nr remove w rs) rs
unfolding walk
walk_others nr remove w [] h t = record {
  kept = sym (append-nil _);
  same_found = refl;
  same_modified = refl;
  same_inserted = refl;
  same_matches = refl;
  idle = h;
}
walk_others nr remove w (r ∷ rs) h t =
    let first = visit_other nr remove w r h (not_twin nr r rs t) in
    Passed-trans w (visit nr remove w r) _ (r ∷ []) rs first
      (walk_others nr remove (visit nr remove w r) rs first.idle (none_after nr r rs t))

-- The codes on which a removal takes the rule out.
abbrev pub removes : Rule → MatchCode → Bool
removes nr c = is_exact c || is_comment c && nr.comment == ""

pub judge_add :
    (nr r : Rule) (c : MatchCode) (w : Walk)
    → below_none c ≡ true
    → w.found ≡ false
    → w.modified ≡ false
    → w.inserted ≡ false
    → let v = judge nr false c r w in
      (v.newrules ≡ w.newrules ++ nr ∷ [])
      × (v.found ≡ true)
      × (v.modified ≡ not (is_exact c))
      × (v.inserted ≡ false)
      × (v.pos ≡ w.pos)
      × (v.count ≡ w.count)
unfolding judge
judge_add nr r c w b f m i = ground arith

pub judge_remove :
    (nr r : Rule) (c : MatchCode) (w : Walk)
    → w.found ≡ false
    → w.inserted ≡ false
    → let v = judge nr true c r w in
      (v.newrules ≡ (if removes nr c then w.newrules else w.newrules ++ r ∷ []))
      × (v.found ≡ removes nr c)
      × (v.inserted ≡ false)
      × (v.pos ≡ w.pos)
      × (v.count ≡ w.count)
unfolding judge
judge_remove nr r c w f i = ground arith
