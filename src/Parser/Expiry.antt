-- ===== src/Parser/Expiry.antt =====
-- Durations such as "90m" of the `expires` option.
use Prim.Native.Char.{Char, code}
use Prim.Native.String.append
use native.Mathlib.Nat.{div-lt_iff_lt-mul, div-le_self}
use better_firewall.Prelude.{
  ℕ, ◌*◌, ◌/◌, ◌≤◌, ◌<◌, true, String, Option, none, some, ◌-◌, ◌^◌, ltb, if◌then◌else◌, is_number,
  number_from, ◌<>◌, ◌≡◌, refl, arith, ap, ◌∙◌,
}
use better_firewall.Parser.{split_unit, unit_seconds, in_seconds, max_int64, parse_expiry}

abbrev one_char : Char → String
one_char c = String.◌∷◌ c String.[]

-- A number of seconds, if it is one of 64 bits with a sign.
abbrev pub within_int64 : ℕ → Option ℕ
within_int64 n = if ltb (2 ^ 63 - 1) n then none else some n

split_unit-append :
    (digits : String) (c : Char) → split_unit (digits <> one_char c) ≡ some (digits, code c)
unfolding split_unit
split_unit-append String.[] c = ap split_unit (append.nil (one_char c))
split_unit-append (String.◌∷◌ d digits) c =
    ap split_unit (append.cons d digits (one_char c))
    ∙ rw (split_unit, split_unit-append digits c) refl

-- The check against the quotient refuses exactly the products that do not fit.
in_seconds_product :
    (n mult : ℕ)
    → 1 ≤ mult
    → in_seconds n mult ≡ (if ltb max_int64 (n * mult) then none else some (n * mult))
unfolding in_seconds
in_seconds_product n mult h =
    let (over, back) = div-lt_iff_lt-mul {k = mult} {x = max_int64} {y = n} h in
    let quotient : max_int64 / mult ≤ max_int64 = div-le_self max_int64 mult in
    decided (max_int64 / mult) (n * mult) over back quotient
  where
    decided :
        (q p : ℕ)
        → (q < n → max_int64 < p)
        → (max_int64 < p → q < n)
        → q ≤ max_int64
        → (if ltb max_int64 n then none else if ltb q n then none else some p)
          ≡ (if ltb max_int64 p then none else some p)
    decided q p over back le = ground arith

unit_seconds_positive : (unit mult : ℕ) → unit_seconds unit ≡ some mult → 1 ≤ mult
unfolding unit_seconds
unit_seconds_positive unit mult u = ground arith

parse_expiry_product :
    (digits : String) (c : Char) (mult : ℕ)
    → is_number digits ≡ true
    → unit_seconds (code c) ≡ some mult
    → parse_expiry (digits <> one_char c) ≡ within_int64 (number_from 0 digits * mult)
unfolding parse_expiry
parse_expiry_product digits c mult d u =
    let positive = unit_seconds_positive (code c) mult u in
    rw (parse_expiry, split_unit-append digits c)
      (rw d (rw u (in_seconds_product (number_from 0 digits) mult positive)))

-- A number followed by s, m, h or d stands for that many seconds, minutes of 60 seconds, hours of
-- 60 minutes or days of 24 hours, and is refused exactly if that is more seconds than a 64-bit integer
-- holds.
pub parse_expiry_units :
    (digits : String)
    → is_number digits ≡ true
    → (parse_expiry (digits <> "s") ≡ within_int64 (number_from 0 digits))
      × (parse_expiry (digits <> "m") ≡ within_int64 (number_from 0 digits * 60))
      × (parse_expiry (digits <> "h") ≡ within_int64 (number_from 0 digits * (60 * 60)))
      × (parse_expiry (digits <> "d") ≡ within_int64 (number_from 0 digits * (24 * (60 * 60))))
unfolding unit_seconds
parse_expiry_units digits d =
    let n = number_from 0 digits in
    let same : n * 1 ≡ n = omega arith in
    (
      parse_expiry_product digits "s" 1 d refl ∙ ap within_int64 same,
      parse_expiry_product digits "m" 60 d refl,
      parse_expiry_product digits "h" 3600 d refl,
      parse_expiry_product digits "d" 86400 d refl,
    )
