-- ===== src/Net/Mapped.antt =====
-- The guard against IPv4-mapped prefixes that are broader than IPv4.
use native.Mathlib.Nat.{pow-suc, mul_assoc}
use better_firewall.Prelude.{
  ℕ, zero, suc, ◌+◌, ◌-◌, ◌*◌, ◌/◌, ◌^◌, ◌<◌, false, none, ltb, nat_eq, ◌≡◌, ◌≢◌, refl, arith, ap,
  sym, ◌∙◌, Bool-cases, inl, inr, ltb→lt,
}
use better_firewall.Net.{Addr, v4, v6, Prefix, clear, unmap_prefix}

pow_33 : (j : ℕ) → 2 ^ (j + 33) ≡ 2 ^ j * 2 ^ 33
pow_33 zero = refl
pow_33 (suc j) =
    let e : suc j + 33 ≡ suc (j + 33) = omega arith in
    rw (e, pow-suc) (omega (arith, pow_33 j, pow-suc 2 j))

even_ne : (x : ℕ) → x * 2 ^ 33 / 2 ^ 32 ≢ 65535
even_ne x h = absurd (omega arith)

-- Without at least 33 of its last bits a number does not end in ::ffff:0:0.
clear-ne_mapped : (j n : ℕ) → clear (j + 33) n / 2 ^ 32 ≢ 65535
unfolding clear
clear-ne_mapped j n h =
    let q = n / 2 ^ (j + 33) in
    even_ne (q * 2 ^ j)
      (ap (λ m. m / 2 ^ 32) (mul_assoc q (2 ^ j) (2 ^ 33) ∙ ap (λ m. q * m) (sym (pow_33 j))) ∙ h)

clear_broad : (bits n : ℕ) → bits < 96 → nat_eq (clear (128 - bits) n / 2 ^ 32) 65535 ≡ false
clear_broad bits n h =
    let e : 128 - bits ≡ 95 - bits + 33 = omega arith in
    let ne = clear-ne_mapped (95 - bits) n in rw e (ground (arith, ne))

-- A prefix is masked before the guard is asked, so that the guard never refuses one: no prefix is
-- rejected for being an IPv4-mapped prefix broader than IPv4.
pub unmap_prefix-ne-none : (p : Prefix) → unmap_prefix p ≢ none
unfolding unmap_prefix
unmap_prefix-ne-none p = go p.addr p.bits
  where
    go : (a : Addr) (bits : ℕ) → unmap_prefix (record { addr = a; bits = bits }) ≢ none
    go (v4 n) bits h = cc
    go (v6 n zone) bits h = elim (Bool-cases (ltb bits 96)) [
      | inl low ↦ let f = clear_broad bits n (ltb→lt bits 96 low) in ground arith
      | inr high ↦ ground arith
    ]
