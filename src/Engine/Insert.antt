-- ===== src/Engine/Insert.antt =====
-- Inserting a new rule at a position of the list.
use mathlib.Core.List.{append-nil, append_assoc}
use better_firewall.Prelude.{
  ℕ, ◌+◌, ◌≤◌, ◌<◌, true, false, List, [], ◌∷◌, ◌++◌, ◌≡◌, refl, sym, ap, ◌∙◌, arith, subst, ◌⊎◌,
  inl, inr, length, ◌≢◌, length-append, String-eq,
}
use better_firewall.Rule.{Rule, same_tuple}
use better_firewall.Engine.{
  Walk, Group, no_group, start, place, visit, group_of, walk, finish, set_rule_engine, splittable,
  out_inserted, out_added,
}
use better_firewall.Engine.Groups.{
  last_group, head_group, Inside, AllInside, splittable_sound, splittable-Inside, AllInside-append,
  last_group-append,
}
use better_firewall.Engine.Frame.{match_of_other}
use better_firewall.Engine.Unique.{twin_count}
use better_firewall.Engine.Passing.{walk_others, judge_none, not_twin, none_after}
use better_firewall.Engine.Spec.{set_rule_engine_lem}

-- The state of the loop before an insertion, when it has passed the rules `pre`.
record Before (nr : Rule) (wanted : ℕ) (w : Walk) (pre : List Rule) : Type 0 where
  kept : w.newrules ≡ pre
  found : w.found ≡ false
  modified : w.modified ≡ false
  inserted : w.inserted ≡ false
  matches : w.matches ≡ 0
  count : w.count ≡ length pre + 1
  last : w.last ≡ last_group nr.v6 no_group pre
  sliding : wanted ≤ w.pos
  ahead : w.count ≤ w.pos
  slid : (w.pos ≡ wanted) ⊎ (w.pos ≡ w.count)
  inside : AllInside wanted nr.v6 no_group 1 pre

-- What an insertion did: the rule stands between `pre` and `post`, at the wanted position or after
-- it; if the rules on both sides have one destination, source and pair of application names, then
-- they have no application names; and every earlier place from that position on is inside a group.
pub record InsertedAt (nr : Rule) (wanted : ℕ) (list result : List Rule) : Type 0 where
  pub pre : List Rule
  pub post : List Rule
  pub whole : list ≡ pre ++ post
  pub placed : result ≡ pre ++ nr ∷ post
  pub not_before : wanted ≤ length pre + 1
  pub open_place :
      last_group nr.v6 no_group pre ≡ head_group nr.v6 post
      → ((head_group nr.v6 post).dapp ≡ "") × ((head_group nr.v6 post).sapp ≡ "")
  pub first_place : AllInside wanted nr.v6 no_group 1 pre

-- A round either passes the rule, or inserts before it.
place_cases :
    (nr : Rule) (g : Group) (w : Walk)
    → ((place nr g w).inserted ≡ w.inserted)
        × ((place nr g w).newrules ≡ w.newrules)
        × (((w.count ≢ w.pos) × ((place nr g w).pos ≡ w.pos))
            ⊎ ((w.count ≡ w.pos)
                × ((place nr g w).pos ≡ w.pos + 1)
                × (splittable w.count w.last g ≡ false)))
      ⊎ (place nr g w
          ≡ record w { inserted = true; newrules = w.newrules ++ nr ∷ []; last = no_group })
        × (w.count ≡ w.pos)
        × (splittable w.count w.last g ≡ true)
unfolding place
place_cases nr g w = ground arith

place_keeps :
    (nr : Rule) (g : Group) (w : Walk)
    → let v = place nr g w in
      (v.found ≡ w.found)
      × (v.modified ≡ w.modified)
      × (v.matches ≡ w.matches)
      × (v.count ≡ w.count)
unfolding place
place_keeps nr g w = ground arith

-- The state of the loop after the insertion before `r`.
record Landed (nr : Rule) (wanted : ℕ) (v : Walk) (pre : List Rule) (r : Rule) : Type 0 where
  kept : v.newrules ≡ (pre ++ nr ∷ []) ++ r ∷ []
  inserted : v.inserted ≡ true
  matches : v.matches ≡ 0
  idle : v.pos < v.count
  not_before : wanted ≤ length pre + 1
  open_place : splittable (length pre + 1) (last_group nr.v6 no_group pre) (group_of nr.v6 r) ≡ true
  first_place : AllInside wanted nr.v6 no_group 1 pre

-- A round that inserts nothing: the position slides only at a place inside a group.
passed_lem :
    (nr : Rule) (wanted : ℕ) (w : Walk) (pre : List Rule) (r : Rule)
    → Before nr wanted w pre
    → ((w.count ≢ w.pos) × ((place nr (group_of nr.v6 r) w).pos ≡ w.pos))
      ⊎ ((w.count ≡ w.pos)
          × ((place nr (group_of nr.v6 r) w).pos ≡ w.pos + 1)
          × (splittable w.count w.last (group_of nr.v6 r) ≡ false))
    → let v = place nr (group_of nr.v6 r) w in
      (w.count + 1 ≤ v.pos)
      × (w.pos ≤ v.pos)
      × ((v.pos ≡ wanted) ⊎ (v.pos ≡ w.count + 1))
      × ((1 + length pre < wanted) ⊎ Inside (last_group nr.v6 no_group pre) (group_of nr.v6 r))
passed_lem nr wanted w pre r b (inl (n, e)) =
    let lt : w.count < w.pos = grind (arith, n, b.ahead) in
    let at : w.pos ≡ wanted = elim b.slid [ inl p ↦ p | inr p ↦ absurd (omega (arith, p, lt)) ] in
    (omega (arith, e, lt), omega (arith, e), inl (e ∙ at), inl (omega (arith, b.count, at, lt)))
passed_lem nr wanted w pre r b (inr (e, s, c)) = (
  omega (arith, e, s),
  omega (arith, s),
  inr (omega (arith, e, s)),
  inr (
      subst (λ g. Inside g (group_of nr.v6 r)) b.last
        (splittable-Inside w.count w.last (group_of nr.v6 r) c)),
)

visit-Before :
    (nr : Rule) (wanted : ℕ) (w : Walk) (pre : List Rule) (r : Rule)
    → Before nr wanted w pre
    → same_tuple r nr ≡ false
    → Before nr wanted (visit nr false w r) (pre ++ r ∷ [])
      ⊎ Landed nr wanted (visit nr false w r) pre r
unfolding visit
visit-Before nr wanted w pre r b other =
    let g = group_of nr.v6 r in
    let (f, m, n, c) = place_keeps nr g w in
    rw (match_of_other r nr other, judge_none nr false r)
      (elim (place_cases nr g w) [
        | inl (i, k, s) ↦
            let (up, le, slid, next) = passed_lem nr wanted w pre r b s in
            inl (record {
              kept = ap (λ l. l ++ r ∷ []) (k ∙ b.kept);
              found = f ∙ b.found;
              modified = m ∙ b.modified;
              inserted = i ∙ b.inserted;
              matches = n ∙ b.matches;
              count = omega (arith, c, b.count, length-append pre (r ∷ []));
              last = sym (last_group-append nr.v6 no_group pre r);
              sliding = omega (arith, le, b.sliding);
              ahead = omega (arith, c, up);
              slid = elim slid [ inl p ↦ inl p | inr p ↦ inr (omega (arith, c, p)) ];
              inside = AllInside-append wanted nr.v6 no_group 1 pre r b.inside next;
            })
        | inr (e, here, s) ↦ inr (record {
          kept = rw e (ap (λ l. (l ++ nr ∷ []) ++ r ∷ []) b.kept);
          inserted = rw e refl;
          matches = rw e b.matches;
          idle = rw e (omega (arith, here));
          not_before = omega (arith, here, b.count, b.sliding);
          open_place = rw (← b.count, ← b.last) s;
          first_place = b.inside;
        })
      ])

-- The loop over rules of other tuples, from a state before the insertion.
walk-Before :
    (nr : Rule) (wanted : ℕ) (w : Walk) (pre rs : List Rule)
    → Before nr wanted w pre
    → twin_count nr rs ≡ 0
    → Before nr wanted (walk nr false w rs) (pre ++ rs)
      ⊎ (InsertedAt nr wanted (pre ++ rs) (walk nr false w rs).newrules
          × ((walk nr false w rs).inserted ≡ true)
          × ((walk nr false w rs).matches ≡ 0))
unfolding walk
walk-Before nr wanted w pre [] b z = inl (rw (append-nil pre) b)
walk-Before nr wanted w pre (r ∷ rs) b z =
    elim (visit-Before nr wanted w pre r b (not_twin nr r rs z)) [
      | inl b' ↦
          subst
            (λ l.
              Before nr wanted (walk nr false (visit nr false w r) rs) l
              ⊎ (InsertedAt nr wanted l (walk nr false (visit nr false w r) rs).newrules
                  × ((walk nr false (visit nr false w r) rs).inserted ≡ true)
                  × ((walk nr false (visit nr false w r) rs).matches ≡ 0)))
            (append_assoc pre (r ∷ []) rs)
            (walk-Before nr wanted (visit nr false w r) (pre ++ r ∷ []) rs b'
              (none_after nr r rs z))
      | inr l ↦
          let p = walk_others nr false (visit nr false w r) rs l.idle (none_after nr r rs z) in
          inr (
            record {
              pre = pre;
              post = r ∷ rs;
              whole = refl;
              placed =
                  p.kept
                  ∙ ap (λ l. l ++ rs) l.kept
                  ∙ append_assoc (pre ++ nr ∷ []) (r ∷ []) rs
                  ∙ append_assoc pre (nr ∷ []) (r ∷ rs);
              not_before = l.not_before;
              open_place = splittable_sound (length pre + 1) _ _ l.open_place;
              first_place = l.first_place;
            },
            p.same_inserted ∙ l.inserted,
            p.same_matches ∙ l.matches,
          )
    ]

module _ (nr : Rule) (list : List Rule) where
  finish-Before :
      (pos : ℕ) (w : Walk)
      → Before nr pos w list
      → (finish nr false list w ≡ (list ++ nr ∷ [], out_added))
        × AllInside pos nr.v6 no_group 1 list
  unfolding finish
  finish-Before pos w b = (rw (b.inserted, b.found, b.modified, b.kept), b.inside)

  finish_inserted :
      (w : Walk)
      → w.inserted ≡ true
      → w.matches ≡ 0
      → finish nr false list w ≡ (w.newrules, out_inserted)
  unfolding finish
  finish_inserted w i m = rw (i, m)

-- Inserting a rule of a new tuple at a position from 1 on either puts it at the first place, at that
-- position or further on, that is not inside the group of an application, which is a row of rules of
-- one destination, source and pair of application names; or it appends the rule, and then the place
-- before each rule of the list, from that position on, is inside such a group.
pub set_rule_engine-insert :
    (list : List Rule) (nr : Rule) (pos : ℕ)
    → 1 ≤ pos
    → twin_count nr list ≡ 0
    → (((set_rule_engine list nr pos false).1 ≡ out_inserted)
        × InsertedAt nr pos list (set_rule_engine list nr pos false).0)
      ⊎ ((set_rule_engine list nr pos false ≡ (list ++ nr ∷ [], out_added))
          × AllInside pos nr.v6 no_group 1 list)
set_rule_engine-insert list nr pos h z =
    rw (set_rule_engine_lem list nr pos false)
      (elim (walk-Before nr pos (start pos) [] list start-Before z) [
        | inl b ↦ inr (finish-Before nr list pos (walk nr false (start pos) list) b)
        | inr (i, ins, m) ↦
            inl (rw (finish_inserted nr list (walk nr false (start pos) list) ins m) (refl, i))
      ])
  where
    start-Before : Before nr pos (start pos) []
    start-Before = record {
      kept = refl;
      found = refl;
      modified = refl;
      inserted = refl;
      matches = refl;
      count = refl;
      last = unfold last_group in refl;
      sliding = omega arith;
      ahead = omega arith;
      slid = inl refl;
      inside = unfold AllInside in tt;
    }
