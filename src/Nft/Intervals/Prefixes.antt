-- ===== src/Nft/Intervals/Prefixes.antt =====
-- internal/backend/nft/compile.go, intervalEnd: the interval of a prefix holds the prefix's addresses.
use native.Mathlib.Nat.{div-lt_iff_lt-mul, pow-le-pow_right}
use better_firewall.Prelude.{
  ℕ, suc, ◌+◌, ◌-◌, ◌*◌, ◌/◌, ◌^◌, ◌≤◌, ◌<◌, ◌≡◌, false, ◌&&◌, none, some, ltb, leb, nat_eq, ◌==◌,
  ℕ-eq, if◌then◌else◌, arith, ◌∙◌,
}
use better_firewall.Nft.Intervals.{interval_end, prefix_interval}
use better_firewall.Nft.Intervals.Merge.{holds, HasEnd}

-- The numbers with a given quotient are those between two multiples.
block_lem : (h q x : ℕ) → 0 < h → (leb (q * h) x && ltb x (q * h + h)) ≡ nat_eq q (x / h)
block_lem h q x p =
    let (a, b) = div-lt_iff_lt-mul {k = h} {x = x} {y = q} p in
    let (c, d) = div-lt_iff_lt-mul {k = h} {x = x} {y = suc q} p in
    let e : suc q * h ≡ q * h + h = omega arith in grind (arith, a, b, c, d, e)

holds_end :
    (top h m x : ℕ)
    → 0 < h
    → x < top
    → holds x (record {
      start = m;
      end = if m + (h - 1) + 1 == top then none else some (m + (h - 1) + 1);
    })
      ≡ (leb m x && ltb x (m + h))
holds_end top h m x p q = ground arith

pub pow_pos : (k : ℕ) → 0 < 2 ^ k
pow_pos k =
    let two : 0 < 2 = omega arith in
    let le : 2 ^ 0 ≤ 2 ^ k = pow-le-pow_right {n = 2} two {i = 0} {j = k} (omega arith) in
    omega (arith, le)

-- The interval of a prefix of `bits` bits holds an address of the family exactly when the two agree
-- in these bits.
pub holds-prefix_interval :
    (width n bits x : ℕ)
    → x < 2 ^ width
    → holds x (prefix_interval width n bits)
      ≡ nat_eq (n / 2 ^ (width - bits)) (x / 2 ^ (width - bits))
unfolding prefix_interval interval_end
holds-prefix_interval width n bits x h =
    let k = 2 ^ (width - bits) in
    holds_end (2 ^ width) k (n / k * k) x (pow_pos (width - bits)) h
    ∙ block_lem k (n / k) x (pow_pos (width - bits))

end_lem :
    (top h m : ℕ)
    → 0 < h
    → 0 < top
    → holds (top - 1) (record {
      start = m;
      end = if m + (h - 1) + 1 == top then none else some (m + (h - 1) + 1);
    })
      ≡ false
    → HasEnd (record {
      start = m;
      end = if m + (h - 1) + 1 == top then none else some (m + (h - 1) + 1);
    })
end_lem top h m p q k = ground arith

-- An interval without the last address of the family has an end.
pub HasEnd-prefix_interval :
    (width n bits : ℕ)
    → holds (2 ^ width - 1) (prefix_interval width n bits) ≡ false
    → HasEnd (prefix_interval width n bits)
unfolding prefix_interval interval_end
HasEnd-prefix_interval width n bits h =
    let k = 2 ^ (width - bits) in
    end_lem (2 ^ width) k (n / k * k) (pow_pos (width - bits)) (pow_pos width) h
