-- ===== src/Nft/Intervals/Merge.antt =====
-- internal/backend/nft/compile.go, mergeAddrIntervals: which addresses the merged intervals hold.
use better_firewall.Prelude.{
  ℕ, ◌≤◌, ◌≡◌, refl, Bool, true, false, ◌&&◌, ◌||◌, List, [], ◌∷◌, Option, none, some, ltb, leb,
  arith, All, subst, ◌∙◌, Bool-cases, inl, inr,
}
use better_firewall.Nft.Intervals.{
  Interval, insert_interval, sort_intervals, is_apart, takes_end, extend, merge_from, merge_sorted,
  merge_addr_intervals,
}

abbrev pub below : ℕ → Option ℕ → Bool
below x none = true
below x (some e) = ltb x e

abbrev pub holds : ℕ → Interval → Bool
holds x iv = leb iv.start x && below x iv.end

-- An address is in one of the intervals.
unfoldable pub covered : ℕ → List Interval → Bool
covered x [] = false
covered x (iv ∷ ivs) = holds x iv || covered x ivs

covered-insert :
    (x : ℕ) (iv : Interval) (ks : List Interval)
    → covered x (insert_interval iv ks) ≡ (holds x iv || covered x ks)
unfolding covered insert_interval
covered-insert x iv [] = refl
covered-insert x iv (k ∷ ks) = ground (arith, covered-insert x iv ks)

pub covered-sort : (x : ℕ) (ivs : List Interval) → covered x (sort_intervals ivs) ≡ covered x ivs
unfolding covered sort_intervals
covered-sort x [] = refl
covered-sort x (iv ∷ ivs) =
    ground (arith, covered-insert x iv (sort_intervals ivs), covered-sort x ivs)

-- The starts do not fall.
abbrev pub StartsFrom : ℕ → List Interval → Type 0
StartsFrom n [] = Unit
StartsFrom n (iv ∷ ivs) = (n ≤ iv.start) × StartsFrom iv.start ivs

abbrev pub is_end : Option ℕ → Bool
is_end none = false
is_end (some e) = true

-- The interval stops below the top of the address space.
abbrev pub HasEnd : Interval → Type 0
HasEnd iv = is_end iv.end ≡ true

-- An interval does not grow beyond the two that it stands for.
holds-extend_lem :
    (x : ℕ) (last iv : Interval)
    → last.start ≤ iv.start
    → is_apart last.end iv ≡ false
    → holds x (extend last iv) ≡ true
    → (holds x last || holds x iv) ≡ true
unfolding extend takes_end is_apart
holds-extend_lem x last iv h a k = ground arith

-- With both ends below the top it holds what the two hold.
holds-extend :
    (x : ℕ) (last iv : Interval)
    → last.start ≤ iv.start
    → is_apart last.end iv ≡ false
    → HasEnd last
    → HasEnd iv
    → holds x (extend last iv) ≡ (holds x last || holds x iv)
unfolding extend takes_end is_apart
holds-extend x last iv h a p q = ground arith

HasEnd-extend : (last iv : Interval) → HasEnd last → HasEnd iv → HasEnd (extend last iv)
unfolding extend takes_end
HasEnd-extend last iv p q = ground arith

pub start-extend : (last iv : Interval) → (extend last iv).start ≡ last.start
unfolding extend
start-extend last iv = ground arith

StartsFrom-le : (m n : ℕ) (ivs : List Interval) → m ≤ n → StartsFrom n ivs → StartsFrom m ivs
StartsFrom-le m n [] h s = tt
StartsFrom-le m n (iv ∷ ivs) h (p, s) = (omega arith, s)

-- The rest of the sorted list may follow the extended interval.
pub StartsFrom-extend :
    (last iv : Interval) (ivs : List Interval)
    → last.start ≤ iv.start
    → StartsFrom iv.start ivs
    → StartsFrom (extend last iv).start ivs
StartsFrom-extend last iv ivs p s =
    rw (start-extend last iv) (StartsFrom-le last.start iv.start ivs p s)

pub merge_from-apart :
    (last iv : Interval) (ivs : List Interval)
    → is_apart last.end iv ≡ true
    → merge_from last (iv ∷ ivs) ≡ last ∷ merge_from iv ivs
unfolding merge_from
merge_from-apart last iv ivs a = ground (arith, a)

pub merge_from-joined :
    (last iv : Interval) (ivs : List Interval)
    → is_apart last.end iv ≡ false
    → merge_from last (iv ∷ ivs) ≡ merge_from (extend last iv) ivs
unfolding merge_from
merge_from-joined last iv ivs a = ground (arith, a)

covered-merge_from_lem :
    (x : ℕ) (last : Interval) (ivs : List Interval)
    → StartsFrom last.start ivs
    → covered x (merge_from last ivs) ≡ true
    → (holds x last || covered x ivs) ≡ true
unfolding covered merge_from
covered-merge_from_lem x last [] s h = h
covered-merge_from_lem x last (iv ∷ ivs) (p, s) h = elim (Bool-cases (is_apart last.end iv)) [
  | inl a ↦ ground (arith, a, h, covered-merge_from_lem x iv ivs s)
  | inr a ↦ ground (
    arith,
    a,
    h,
    holds-extend_lem x last iv p a,
    covered-merge_from_lem x (extend last iv) ivs (StartsFrom-extend last iv ivs p s),
  )
]

-- With every end below the top, merging keeps the addresses.
covered-merge_from :
    (x : ℕ) (last : Interval) (ivs : List Interval)
    → StartsFrom last.start ivs
    → HasEnd last
    → All HasEnd ivs
    → covered x (merge_from last ivs) ≡ (holds x last || covered x ivs)
unfolding covered merge_from
covered-merge_from x last [] s q qs = refl
covered-merge_from x last (iv ∷ ivs) (p, s) q (r, qs) = elim (Bool-cases (is_apart last.end iv)) [
  | inl a ↦ ground (arith, a, covered-merge_from x iv ivs s r qs)
  | inr a ↦ ground (
    arith,
    a,
    holds-extend x last iv p a q r,
    covered-merge_from x (extend last iv) ivs (StartsFrom-extend last iv ivs p s)
        (HasEnd-extend last iv q r) qs,
  )
]

StartsFrom-insert :
    (n : ℕ) (iv : Interval) (ks : List Interval)
    → n ≤ iv.start
    → StartsFrom n ks
    → StartsFrom n (insert_interval iv ks)
unfolding insert_interval
StartsFrom-insert n iv [] h s = (h, tt)
StartsFrom-insert n iv (k ∷ ks) h (p, s) = elim (Bool-cases (leb iv.start k.start)) [
  | inl a ↦ let le : iv.start ≤ k.start = ground (arith, a) in rw a (h, (le, s))
  | inr a ↦
      let le : k.start ≤ iv.start = ground (arith, a) in
      rw a (p, StartsFrom-insert k.start iv ks le s)
]

pub StartsFrom-sort : (ivs : List Interval) → StartsFrom 0 (sort_intervals ivs)
unfolding sort_intervals
StartsFrom-sort [] = tt
StartsFrom-sort (iv ∷ ivs) =
    StartsFrom-insert 0 iv (sort_intervals ivs) (omega arith) (StartsFrom-sort ivs)

All-insert :
    (iv : Interval) (ks : List Interval)
    → HasEnd iv
    → All HasEnd ks
    → All HasEnd (insert_interval iv ks)
unfolding insert_interval
All-insert iv [] h s = (h, tt)
All-insert iv (k ∷ ks) h (p, s) = ground (arith, All-insert iv ks h s)

All-sort : (ivs : List Interval) → All HasEnd ivs → All HasEnd (sort_intervals ivs)
unfolding sort_intervals
All-sort [] h = tt
All-sort (iv ∷ ivs) (p, h) = All-insert iv (sort_intervals ivs) p (All-sort ivs h)

-- An address that the merged intervals hold is in one of the given ones.
pub covered-merge_lem :
    (x : ℕ) (ivs : List Interval)
    → covered x (merge_addr_intervals ivs) ≡ true
    → covered x ivs ≡ true
unfolding merge_addr_intervals merge_sorted covered
covered-merge_lem x ivs h =
    subst (λ b. b ≡ true) (covered-sort x ivs) (go (sort_intervals ivs) (StartsFrom-sort ivs) h)
  where
    go :
        (ks : List Interval)
        → StartsFrom 0 ks
        → covered x (merge_sorted ks) ≡ true
        → covered x ks ≡ true
    go [] s k = k
    go (iv ∷ ks) (p, s) k = covered-merge_from_lem x iv ks s k

-- Where no given interval reaches the top of the address space, the merged intervals hold exactly
-- the addresses of the given ones.
pub covered-merge :
    (x : ℕ) (ivs : List Interval)
    → All HasEnd ivs
    → covered x (merge_addr_intervals ivs) ≡ covered x ivs
unfolding merge_addr_intervals merge_sorted covered
covered-merge x ivs h =
    go (sort_intervals ivs) (StartsFrom-sort ivs) (All-sort ivs h) ∙ covered-sort x ivs
  where
    go :
        (ks : List Interval)
        → StartsFrom 0 ks
        → All HasEnd ks
        → covered x (merge_sorted ks) ≡ covered x ks
    go [] s q = refl
    go (iv ∷ ks) (p, s) (r, q) = covered-merge_from x iv ks s r q

-- An interval that reaches the top of the address space, and another that starts no earlier and
-- stops at `e`, are merged into one that stops at `e`: the addresses from `e` on are lost.
pub merge-top :
    (s t e : ℕ)
    → s ≤ t
    → merge_addr_intervals
        (record { start = s; end = none } ∷ record { start = t; end = some e } ∷ [])
      ≡ record { start = s; end = some e } ∷ []
unfolding merge_addr_intervals sort_intervals insert_interval merge_sorted merge_from is_apart
    extend takes_end
merge-top s t e h = ground arith
