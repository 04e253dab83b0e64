-- ===== src/Commands/Removal.antt =====
-- Deleting by number and sweeping keep the state well formed.
use better_firewall.Prelude.{
  ℕ, suc, zero, ◌+◌, ◌≤◌, Bool, true, false, not, List, [], ◌∷◌, ◌++◌, String, Option, none, some,
  ◌≡◌, arith, if◌then◌else◌, All-append, All-keep, All-take, All-drop, length, keep, take, drop,
  get_elem?, ◌==◌, String-eq, ◌||◌, subst, All, Bool-cases, inl, inr, ◌⊎◌, ◌<◌, ltb→lt,
}
use better_firewall.Prelude.Int.{ℤ, pos, pos_part, neg_part, leb_ℤ, ltb_ℤ, ℤ_eq, eq_of_parts}
use better_firewall.Rule.{Rule, expired}
use better_firewall.Rule.Keys.{app_tuple}
use better_firewall.Store.{State, ThreatBan}
use better_firewall.Numbering.{is_app, mark_families, rule_by_number}
use better_firewall.Engine.{out_deleted}
use better_firewall.Engine.Unique.{twin_count}
use better_firewall.Commands.{
  ok, err, no_such_rule, rules_of, with_rules, outcome_string, remove_at, delete_at,
  delete_by_number, sweep_expired,
}
use better_firewall.Commands.WellFormed.{
  GoodList, IsWellFormed, Ensures, returned, failed, Ensures-if, Ensures-ok, WellFormedFirst,
  GoodList-of, with_rules-IsWellFormed,
}

twin_count-keep :
    (p : Rule → Bool) (x : Rule) (list : List Rule) → twin_count x (keep p list) ≤ twin_count x list
twin_count-keep p x [] = omega arith
twin_count-keep p x (r ∷ list) = ground (arith, twin_count-keep p x list)

GoodList-keep :
    (p : Rule → Bool) (v6 : Bool) (list : List Rule) → GoodList v6 list → GoodList v6 (keep p list)
GoodList-keep p v6 list (u, f) = (
  (λ x. let fewer = twin_count-keep p x list in let one = u x in omega arith),
  All-keep (λ (r : Rule). r.v6 ≡ v6) p list f,
)

twin_count-drop :
    (n : ℕ) (x : Rule) (list : List Rule) → twin_count x (drop n list) ≤ twin_count x list
twin_count-drop zero x list = omega arith
twin_count-drop (suc n) x [] = omega arith
twin_count-drop (suc n) x (r ∷ list) = ground (arith, twin_count-drop n x list)

twin_count-remove_at :
    (n : ℕ) (x : Rule) (list : List Rule)
    → twin_count x (take n list ++ drop (n + 1) list) ≤ twin_count x list
twin_count-remove_at zero x list = twin_count-drop 1 x list
twin_count-remove_at (suc n) x [] = twin_count-drop (suc n + 1) x []
twin_count-remove_at (suc n) x (r ∷ list) = ground (arith, twin_count-remove_at n x list)

GoodList-remove_at :
    (n : ℕ) (v6 : Bool) (list : List Rule) → GoodList v6 list → GoodList v6 (remove_at n list)
unfolding remove_at
GoodList-remove_at n v6 list (u, f) = (
  (λ x. let fewer = twin_count-remove_at n x list in let one = u x in omega arith),
  All-append (λ (r : Rule). r.v6 ≡ v6) (take n list) (drop (n + 1) list)
      (All-take (λ (r : Rule). r.v6 ≡ v6) n list f)
      (All-drop (λ (r : Rule). r.v6 ≡ v6) (n + 1) list f),
)

delete_at-IsWellFormed :
    (st : State) (i : ℕ) (v6 : Bool) (r : Rule)
    → IsWellFormed st
    → IsWellFormed (delete_at st i v6 r)
unfolding delete_at
delete_at-IsWellFormed st i v6 r h = chosen (is_app r)
  where
    chosen :
        (app : Bool)
        → IsWellFormed (
            if app
            then with_rules st v6 (keep (λ x. not (app_tuple x == app_tuple r)) (rules_of st v6))
            else with_rules st v6 (remove_at i (rules_of st v6)))
    chosen true = with_rules-IsWellFormed st v6 _ h (GoodList-keep _ v6 _ (GoodList-of st v6 h))
    chosen false =
        with_rules-IsWellFormed st v6 _ h (GoodList-remove_at i v6 _ (GoodList-of st v6 h))

-- If the loaded state, marked with the families, is well formed, then so is the state that a delete
-- by number hands to the commit.
pub delete_by_number-IsWellFormed :
    (live : Bool) (loaded : State) (n : ℤ) (done : State × String)
    → IsWellFormed (mark_families loaded)
    → delete_by_number live loaded n ≡ ok done
    → IsWellFormed done.0
unfolding delete_by_number
delete_by_number-IsWellFormed live loaded n done h e =
    let st = mark_families loaded in
    Ensures-ok WellFormedFirst done (
      subst (Ensures WellFormedFirst) e (
        Ensures-if (leb_ℤ n (pos 0) || ltb_ℤ (pos (length st.rules4 + length st.rules6)) n) failed
          (numbered (rule_by_number st n))))
  where
    deleted :
        (i : ℕ) (v6 : Bool) (o : Option Rule)
        → Ensures WellFormedFirst (elim o [
          | none ↦ err (no_such_rule n)
          | some r ↦
              ok (delete_at (mark_families loaded) i v6 r, outcome_string out_deleted v6 live)
        ])
    deleted i v6 none = failed
    deleted i v6 (some r) = returned (delete_at-IsWellFormed (mark_families loaded) i v6 r h)

    numbered :
        (o : Option (ℕ × Bool))
        → Ensures WellFormedFirst (elim o [
          | none ↦ err (no_such_rule n)
          | some (i, v6) ↦ elim (get_elem? (rules_of (mark_families loaded) v6) i) [
            | none ↦ err (no_such_rule n)
            | some r ↦
                ok (delete_at (mark_families loaded) i v6 r, outcome_string out_deleted v6 live)
          ]
        ])
    numbered none = failed
    numbered (some (i, v6)) = deleted i v6 (get_elem? (rules_of (mark_families loaded) v6) i)

-- A time is later than now.
abbrev pub IsLater : ℤ → ℤ → Type 0
IsLater now t = pos_part now + neg_part t < pos_part t + neg_part now

-- The rule has no expiry, or a later one.
abbrev pub InTime : ℤ → Rule → Type 0
InTime now r = (r.expires_at ≡ pos 0) ⊎ IsLater now r.expires_at

InTime-expired : (now : ℤ) (r : Rule) → not (expired r now) ≡ true → InTime now r
unfolding expired
InTime-expired now r h = elim (Bool-cases (ℤ_eq r.expires_at (pos 0))) [
  | inl e ↦ inl (none_set r.expires_at e)
  | inr e ↦ inr (ltb→lt _ _ (grind (arith, h, e)))
]
  where
    none_set : (t : ℤ) → ℤ_eq t (pos 0) ≡ true → t ≡ pos 0
    none_set t h = eq_of_parts t (pos 0) (ground (arith, h))

All-InTime : (now : ℤ) (rs : List Rule) → All (InTime now) (keep (λ r. not (expired r now)) rs)
All-InTime now [] = tt
All-InTime now (r ∷ rs) = elim (Bool-cases (not (expired r now))) [
  | inl p ↦ rw p (InTime-expired now r p, All-InTime now rs)
  | inr p ↦ rw p (All-InTime now rs)
]

bans_in_time :
    (now : ℤ) (bans : List ThreatBan)
    → All (λ (b : ThreatBan). IsLater now b.expires_at) (keep (λ b. ltb_ℤ now b.expires_at) bans)
bans_in_time now [] = tt
bans_in_time now (b ∷ bans) = elim (Bool-cases (ltb_ℤ now b.expires_at)) [
  | inl p ↦ rw p (ltb→lt _ _ p, bans_in_time now bans)
  | inr p ↦ rw p (bans_in_time now bans)
]

-- The sweep keeps a well-formed state well formed, and leaves only rules without an expiry or with one
-- later than now, and only bans that expire later than now.
pub sweep_expired-IsWellFormed :
    (now : ℤ) (st : State)
    → IsWellFormed st
    → IsWellFormed (sweep_expired now st)
      × All (InTime now) (sweep_expired now st).rules4
      × All (InTime now) (sweep_expired now st).rules6
      × All (λ (b : ThreatBan). IsLater now b.expires_at) (sweep_expired now st).bans
unfolding sweep_expired
sweep_expired-IsWellFormed now st h = (
  record {
    good4 = GoodList-keep (λ r. not (expired r now)) false st.rules4 h.good4;
    good6 = GoodList-keep (λ r. not (expired r now)) true st.rules6 h.good6;
  },
  All-InTime now st.rules4,
  All-InTime now st.rules6,
  bans_in_time now st.bans,
)
