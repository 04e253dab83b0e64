-- ===== src/Nft/Intervals.antt =====
-- internal/backend/nft/compile.go: the address intervals of the sets. Addresses of one family are
-- numbers below 2 ^ 32 or 2 ^ 128; an end is `none` where the source has the invalid address.
pub mod Merge
pub mod Gaps
pub mod Prefixes
use better_firewall.Prelude.{
  ℕ, ◌+◌, ◌-◌, ◌*◌, ◌/◌, ◌^◌, Bool, true, false, not, ◌&&◌, ◌||◌, List, [], ◌∷◌, Option, none, some,
  ltb, leb, ◌==◌, ℕ-eq, if◌then◌else◌,
}
use better_firewall.Nft.Expr.{SetElement}
use better_firewall.Nft.Match.{wire_bytes}

-- `addrInterval`: [start, end).
pub record Interval : Type 0 where
  pub start : ℕ
  pub end : Option ℕ

-- `intervalEnd` of an address of `width` bits.
unfoldable pub interval_end : ℕ → ℕ → ℕ → Option ℕ
interval_end width n bits =
    let last = n / 2 ^ (width - bits) * 2 ^ (width - bits) + (2 ^ (width - bits) - 1) in
    if last + 1 == 2 ^ width then none else some (last + 1)

-- The interval of a prefix: its masked address, and its end.
unfoldable pub prefix_interval : ℕ → ℕ → ℕ → Interval
unfolding interval_end
prefix_interval width n bits = record {
  start = n / 2 ^ (width - bits) * 2 ^ (width - bits);
  end = interval_end width n bits;
}

-- `sort.Slice` by the start.
unfoldable pub insert_interval : Interval → List Interval → List Interval
insert_interval iv [] = iv ∷ []
insert_interval iv (k ∷ ks) =
    let rest = insert_interval iv ks in if leb iv.start k.start then iv ∷ k ∷ ks else k ∷ rest

unfoldable pub sort_intervals : List Interval → List Interval
unfolding insert_interval
sort_intervals [] = []
sort_intervals (iv ∷ ivs) = insert_interval iv (sort_intervals ivs)

-- `last.end.IsValid() && iv.start.Compare(last.end) > 0`.
unfoldable pub is_apart : Option ℕ → Interval → Bool
is_apart none iv = false
is_apart (some e) iv = ltb e iv.start

-- `!last.end.IsValid() || !iv.end.IsValid() || iv.end.Compare(last.end) > 0`.
unfoldable pub takes_end : Option ℕ → Option ℕ → Bool
takes_end none new = true
takes_end (some e) none = true
takes_end (some e) (some f) = ltb e f

-- The interval behind the write of `last.end`.
unfoldable pub extend : Interval → Interval → Interval
unfolding takes_end
extend last iv = if takes_end last.end iv.end then record last { end = iv.end } else last

-- The loop over the sorted intervals; `last` is the last one of the result so far.
unfoldable pub merge_from : Interval → List Interval → List Interval
unfolding is_apart extend
merge_from last [] = last ∷ []
merge_from last (iv ∷ ivs) = elim (is_apart last.end iv) [
  | true ↦ last ∷ merge_from iv ivs
  | false ↦ merge_from (extend last iv) ivs
]

unfoldable pub merge_sorted : List Interval → List Interval
unfolding merge_from
merge_sorted [] = []
merge_sorted (iv ∷ ivs) = merge_from iv ivs

-- `mergeAddrIntervals`.
unfoldable pub merge_addr_intervals : List Interval → List Interval
unfolding sort_intervals merge_sorted
merge_addr_intervals ivs = merge_sorted (sort_intervals ivs)

-- `addrEndBytes`: the end at the top is written as zeros.
unfoldable pub addr_end_bytes : ℕ → Option ℕ → List ℕ
addr_end_bytes size none = wire_bytes size 0
addr_end_bytes size (some n) = wire_bytes size n

-- The loop of `setIntervals`, for addresses of `size` bytes.
unfoldable pub interval_elements : ℕ → List Interval → List SetElement
unfolding addr_end_bytes
interval_elements size [] = []
interval_elements size (iv ∷ ivs) =
    record { key = wire_bytes size iv.start; interval_end = false }
    ∷ record { key = addr_end_bytes size iv.end; interval_end = true }
    ∷ interval_elements size ivs
