-- ===== src/Check/Prefixes.antt =====
-- internal/cli/commands_ext.go, prefixContains: a prefix that covers another holds all of its addresses.
use native.Mathlib.Nat.{div-div-eq-div-mul, pow-suc, mul_assoc}
use better_firewall.Prelude.{
  ℕ, zero, suc, subst, ◌+◌, ◌-◌, ◌*◌, ◌/◌, ◌^◌, ◌≤◌, ◌≡◌, sym, ap, ◌∙◌, Bool, true, false, not,
  ◌&&◌, leb, leb→le, nat_eq, nat_eq_iff, ◌==◌, String-eq, Bool-eq, if◌then◌else◌, arith, and_true,
  and_intro,
}
use better_firewall.Net.{Addr, Prefix, v4, v6, contains, in_prefix, bit_len, is4}
use better_firewall.Check.{prefix_contains}

pub guard_lem : (c x : Bool) → (if c then false else x) ≡ true → (c ≡ false) × (x ≡ true)
guard_lem c x h = ground arith

pow_add : (k d : ℕ) → 2 ^ (k + d) ≡ 2 ^ k * 2 ^ d
pow_add k zero = let e : k + 0 ≡ k = omega arith in ap (λ n. 2 ^ n) e ∙ omega arith
pow_add k (suc d) =
    let e : k + suc d ≡ suc (k + d) = omega arith in
    ap (λ n. 2 ^ n) e
    ∙ pow-suc 2 (k + d)
    ∙ ap (λ n. n * 2) (pow_add k d)
    ∙ mul_assoc (2 ^ k) (2 ^ d) 2
    ∙ ap (λ n. 2 ^ k * n) (sym (pow-suc 2 d))

-- Numbers that agree in more leading bits agree in fewer.
quotients : (k d m x : ℕ) → m / 2 ^ k ≡ x / 2 ^ k → m / 2 ^ (k + d) ≡ x / 2 ^ (k + d)
quotients k d m x h =
    ap (λ n. m / n) (pow_add k d)
    ∙ sym (div-div-eq-div-mul m (2 ^ k) (2 ^ d))
    ∙ ap (λ n. n / 2 ^ d) h
    ∙ div-div-eq-div-mul x (2 ^ k) (2 ^ d)
    ∙ sym (ap (λ n. x / n) (pow_add k d))

coarser :
    (w big small n m x : ℕ)
    → small ≤ big
    → nat_eq (n / 2 ^ (w - small)) (m / 2 ^ (w - small)) ≡ true
    → nat_eq (m / 2 ^ (w - big)) (x / 2 ^ (w - big)) ≡ true
    → nat_eq (n / 2 ^ (w - small)) (x / 2 ^ (w - small)) ≡ true
coarser w big small n m x h p q =
    let d = w - small - (w - big) in
    let e : w - big + d ≡ w - small = omega arith in
    let r = quotients (w - big) d m x ((nat_eq_iff (m / 2 ^ (w - big)) (x / 2 ^ (w - big))).0 q) in
    let s = subst (λ k. m / 2 ^ k ≡ x / 2 ^ k) e r in
    (nat_eq_iff (n / 2 ^ (w - small)) (x / 2 ^ (w - small))).1
      ((nat_eq_iff (n / 2 ^ (w - small)) (m / 2 ^ (w - small))).0 p ∙ s)

in_prefix-coarser :
    (big small : ℕ) (n m x : Addr)
    → small ≤ big
    → in_prefix small n m ≡ true
    → in_prefix big m x ≡ true
    → in_prefix small n x ≡ true
unfolding in_prefix
in_prefix-coarser big small (v4 n) (v4 m) (v4 x) h p q = coarser 32 big small n m x h p q
in_prefix-coarser big small (v6 n z) (v6 m zm) (v6 x zx) h p q =
    let (z, d) = and_true (zm == "") (nat_eq (n / 2 ^ (128 - small)) (m / 2 ^ (128 - small))) p in
    let (z, e) = and_true (zx == "") (nat_eq (m / 2 ^ (128 - big)) (x / 2 ^ (128 - big))) q in
    and_intro (zx == "") (nat_eq (n / 2 ^ (128 - small)) (x / 2 ^ (128 - small))) z
      (coarser 128 big small n m x h d e)
in_prefix-coarser big small (v4 n) (v4 m) (v6 x zx) h p q = q
in_prefix-coarser big small (v6 n z) (v6 m zm) (v4 x) h p q = q
in_prefix-coarser big small (v4 n) (v6 m zm) x h p q = cc
in_prefix-coarser big small (v6 n z) (v4 m) x h p q = cc

pub prefix_contains_lem :
    (a b : Prefix) (x : Addr)
    → prefix_contains a b ≡ true
    → contains a x ≡ true
    → contains b x ≡ true
unfolding prefix_contains contains
prefix_contains_lem a b x h p =
    let (e, k) =
      guard_lem (not (is4 a.addr == is4 b.addr)) (contains b a.addr && leb b.bits a.bits) h in
    let (c, l) = and_true (contains b a.addr) (leb b.bits a.bits) k in
    let (v, cb) = and_true (leb b.bits (bit_len b.addr)) (in_prefix b.bits b.addr a.addr) c in
    let (va, ca) = and_true (leb a.bits (bit_len a.addr)) (in_prefix a.bits a.addr x) p in
    and_intro (leb b.bits (bit_len b.addr)) (in_prefix b.bits b.addr x) v
      (in_prefix-coarser a.bits b.bits b.addr a.addr x (leb→le b.bits a.bits l) cb ca)
