-- ===== src/Engine/Groups.antt =====
-- The groups of one application profile in a list, and the places inside them.
use text.Mathlib.TextEquality.{eq_iff}
use better_firewall.Prelude.{
  ℕ, ◌+◌, ◌<◌, Bool, true, false, List, [], ◌∷◌, ◌++◌, ◌≡◌, refl, arith, ◌⊎◌, inl, inr, length, not,
  ◌&&◌, ◌||◌, or_false, ltb, ◌==◌, String-eq,
}
use better_firewall.Rule.{Rule}
use better_firewall.Engine.{Group, no_group, group_of, splittable, group_eq}

-- The group of the rule before a position.
unfoldable pub last_group : Bool → Group → List Rule → Group
last_group v6 g [] = g
last_group v6 g (r ∷ rs) = last_group v6 (group_of v6 r) rs

-- The group of the rule at a position.
abbrev pub head_group : Bool → List Rule → Group
head_group v6 [] = no_group
head_group v6 (r ∷ rs) = group_of v6 r

-- The rules on both sides of a place have one destination, source and pair of application names, and
-- these names are not both empty: the place is inside the group of an application.
abbrev pub Inside : Group → Group → Type 0
Inside last current = (last ≡ current) × ((current.dapp == "" && current.sapp == "") ≡ false)

-- For the rules of a list, whose first one has the position `n` and follows a rule of the group `g`:
-- the place before each rule is before the position `wanted`, or inside a group of an application.
unfoldable pub AllInside : ℕ → Bool → Group → ℕ → List Rule → Type 0
AllInside wanted v6 g n [] = Unit
AllInside wanted v6 g n (r ∷ rs) =
    ((n < wanted) ⊎ Inside g (group_of v6 r)) × AllInside wanted v6 (group_of v6 r) (n + 1) rs

same_group : (a b : Group) → group_eq a b ≡ true → a ≡ b
unfolding group_eq
same_group a b h = cc (
  (eq_iff a.dst b.dst).0 (ground (arith, h)),
  (eq_iff a.src b.src).0 (ground (arith, h)),
  (eq_iff a.dapp b.dapp).0 (ground (arith, h)),
  (eq_iff a.sapp b.sapp).0 (ground (arith, h)),
)

-- A place that the engine accepts is not inside a group of one application profile.
pub splittable_sound :
    (count : ℕ) (last current : Group)
    → splittable count last current ≡ true
    → last ≡ current
    → (current.dapp ≡ "") × (current.sapp ≡ "")
unfolding splittable group_eq
splittable_sound count last current h e = ground (
  arith,
  eq_iff last.dapp "",
  eq_iff last.sapp "",
  eq_iff current.dapp "",
  eq_iff current.sapp "",
  eq_iff last.dst current.dst,
  eq_iff last.src current.src,
  eq_iff last.dapp current.dapp,
  eq_iff last.sapp current.sapp,
)

-- A place that the engine refuses is inside a group.
pub splittable-Inside :
    (count : ℕ) (last current : Group) → splittable count last current ≡ false → Inside last current
unfolding splittable group_eq
splittable-Inside count last current h =
    let (rest, other) = or_false (last_free || current_free) (not (group_eq last current)) h in
    let (_, used) = or_false last_free current_free rest in
    (same_group last current (ground (arith, other)), used)
  where
    last_free : Bool
    last_free = last.dapp == "" && last.sapp == "" && ltb 1 count

    current_free : Bool
    current_free = current.dapp == "" && current.sapp == ""

pub AllInside-append :
    (wanted : ℕ) (v6 : Bool) (g : Group) (n : ℕ) (pre : List Rule) (r : Rule)
    → AllInside wanted v6 g n pre
    → (n + length pre < wanted) ⊎ Inside (last_group v6 g pre) (group_of v6 r)
    → AllInside wanted v6 g n (pre ++ r ∷ [])
unfolding AllInside last_group
AllInside-append wanted v6 g n [] r a h = (elim h [ inl p ↦ inl (omega arith) | inr i ↦ inr i ], tt)
AllInside-append wanted v6 g n (x ∷ pre) r (p, a) h = (
  p,
  AllInside-append wanted v6 (group_of v6 x) (n + 1) pre r a
      (elim h [ inl q ↦ inl (omega arith) | inr i ↦ inr i ]),
)

pub last_group-append :
    (v6 : Bool) (g : Group) (pre : List Rule) (r : Rule)
    → last_group v6 g (pre ++ r ∷ []) ≡ group_of v6 r
unfolding last_group
last_group-append v6 g [] r = refl
last_group-append v6 g (x ∷ pre) r = last_group-append v6 (group_of v6 x) pre r
