-- ===== src/Nft/Intervals/Gaps.antt =====
-- internal/backend/nft/compile.go, mergeAddrIntervals: the merged intervals lie in order, with gaps.
use better_firewall.Prelude.{
  ℕ, ◌≤◌, ◌≡◌, Bool, true, false, List, [], ◌∷◌, Option, none, some, ltb, Bool-cases, inl, inr,
}
use better_firewall.Nft.Intervals.{
  Interval, sort_intervals, is_apart, extend, merge_from, merge_sorted, merge_addr_intervals,
}
use better_firewall.Nft.Intervals.Merge.{
  StartsFrom, StartsFrom-extend, StartsFrom-sort, start-extend, merge_from-apart, merge_from-joined,
}

-- A place is beyond an end, with a gap; nothing is beyond the top of the address space.
abbrev pub stops_before : Option ℕ → ℕ → Bool
stops_before none n = false
stops_before (some e) n = ltb e n

-- What comes next starts behind the end, with a gap.
abbrev pub Behind : Option ℕ → List Interval → Type 0
Behind e [] = Unit
Behind e (k ∷ ks) = stops_before e k.start ≡ true

-- Neighbours neither overlap nor touch.
abbrev pub Separated : List Interval → Type 0
Separated [] = Unit
Separated (iv ∷ ivs) = Behind iv.end ivs × Separated ivs

stops_before_apart :
    (e : Option ℕ) (iv : Interval) → is_apart e iv ≡ true → stops_before e iv.start ≡ true
unfolding is_apart
stops_before_apart none iv h = h
stops_before_apart (some e) iv h = h

Behind-merge_from :
    (e : Option ℕ) (last : Interval) (ivs : List Interval)
    → stops_before e last.start ≡ true
    → Behind e (merge_from last ivs)
unfolding merge_from
Behind-merge_from e last [] h = h
Behind-merge_from e last (iv ∷ ivs) h = elim (Bool-cases (is_apart last.end iv)) [
  | inl a ↦ rw (merge_from-apart last iv ivs a) h
  | inr a ↦
      rw (merge_from-joined last iv ivs a)
        (Behind-merge_from e (extend last iv) ivs (rw (start-extend last iv) h))
]

Separated-merge_from : (last : Interval) (ivs : List Interval) → Separated (merge_from last ivs)
unfolding merge_from
Separated-merge_from last [] = (tt, tt)
Separated-merge_from last (iv ∷ ivs) = elim (Bool-cases (is_apart last.end iv)) [
  | inl a ↦ rw (merge_from-apart last iv ivs a) (
    Behind-merge_from last.end iv ivs (stops_before_apart last.end iv a),
    Separated-merge_from iv ivs,
  )
  | inr a ↦ rw (merge_from-joined last iv ivs a) (Separated-merge_from (extend last iv) ivs)
]

StartsFrom-merge_from :
    (n : ℕ) (last : Interval) (ivs : List Interval)
    → n ≤ last.start
    → StartsFrom last.start ivs
    → StartsFrom n (merge_from last ivs)
unfolding merge_from
StartsFrom-merge_from n last [] h s = (h, tt)
StartsFrom-merge_from n last (iv ∷ ivs) h (p, s) = elim (Bool-cases (is_apart last.end iv)) [
  | inl a ↦ rw (merge_from-apart last iv ivs a) (h, StartsFrom-merge_from last.start iv ivs p s)
  | inr a ↦ rw (merge_from-joined last iv ivs a) (
      StartsFrom-merge_from n (extend last iv) ivs (rw (start-extend last iv) h)
        (StartsFrom-extend last iv ivs p s))
]

-- Whatever intervals are merged, the starts of the merged ones do not fall, and each one stops below
-- the start of the next, with at least one address between them; only the last can reach the top of
-- the address space.
pub merge-Separated :
    (ivs : List Interval)
    → Separated (merge_addr_intervals ivs) × StartsFrom 0 (merge_addr_intervals ivs)
unfolding merge_addr_intervals merge_sorted
merge-Separated ivs = go (sort_intervals ivs) (StartsFrom-sort ivs)
  where
    go :
        (ks : List Interval)
        → StartsFrom 0 ks
        → Separated (merge_sorted ks) × StartsFrom 0 (merge_sorted ks)
    go [] s = (tt, tt)
    go (iv ∷ ks) (p, s) = (Separated-merge_from iv ks, StartsFrom-merge_from 0 iv ks p s)
