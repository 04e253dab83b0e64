-- ===== src/Samples/NetTexts.antt =====
-- A text form of addresses that has the properties of net/netip's: numbers are written as strokes.
use Prim.Native.Char.{Char, code}
use better_firewall.Prelude.{
  ℕ, suc, zero, ◌<◌, ◌^◌, Bool, true, false, ◌&&◌, String, Option, none, some, ltb, leb, ℕ-eq,
  String-eq, if◌then◌else◌, ◌≡◌, refl, arith, ap, ◌∙◌, nat_eq, subst,
}
use better_firewall.Net.{Addr, v4, v6, Prefix, Fits, IsPrefix, IsAddr, NetText}

pub strokes : ℕ → String → String
strokes zero s = s
strokes (suc n) s = String.◌∷◌ "1" (strokes n s)

abbrev after_stroke : ℕ × String → ℕ × String
after_stroke r = (suc r.0, r.1)

unfoldable pub read_strokes : String → ℕ × String
read_strokes String.[] = (0, "")
read_strokes (String.◌∷◌ c s) =
    let rest = read_strokes s in
    if nat_eq (code c) b'1' then after_stroke rest else (0, String.◌∷◌ c s)

read_strokes-strokes :
    (n : ℕ) (s : String) → read_strokes s ≡ (0, s) → read_strokes (strokes n s) ≡ (n, s)
unfolding read_strokes strokes
read_strokes-strokes zero s h = h
read_strokes-strokes (suc n) s h = ap after_stroke (read_strokes-strokes n s h)

-- A number within bounds, as an address.
abbrev small4 : ℕ → Option Addr
small4 n = if ltb n (2 ^ 32) then some (v4 n) else none

abbrev small6 : ℕ → String → Option Addr
small6 n zone = if ltb n (2 ^ 128) then some (v6 n zone) else none

-- What was read, if anything, has a property.
abbrev Good : {A : Type 0} → (A → Type 0) → Option A → Type 0
Good P none = Unit
Good P (some a) = P a

Good-if :
    {A : Type 0} (P : A → Type 0) (b : Bool) (x y : Option A)
    → (b ≡ true → Good P x)
    → Good P y
    → Good P (if b then x else y)
Good-if P true x y p q = p refl
Good-if P false x y p q = q

pub Good-some : {A : Type 0} (P : A → Type 0) (o : Option A) (a : A) → Good P o → o ≡ some a → P a
Good-some P o a g e = subst (Good P) e g

small4-Good : (n : ℕ) → Good IsAddr (small4 n)
small4-Good n = Good-if IsAddr (ltb n (2 ^ 32)) _ none (λ b. ground arith) tt

small6-Good : (n : ℕ) (zone : String) → Good IsAddr (small6 n zone)
small6-Good n zone = Good-if IsAddr (ltb n (2 ^ 128)) _ none (λ b. ground arith) tt

abbrev zone_of : String → Option String
zone_of String.[] = none
zone_of (String.◌∷◌ c zone) = some zone

-- What the strokes and the rest of a text of the second family stand for.
unfoldable pub read6 : ℕ × String → Option Addr
read6 r = elim (zone_of r.1) [ none ↦ none | some zone ↦ small6 r.0 zone ]

unfoldable pub read_addr : String → Option Addr
unfolding read_strokes
read_addr String.[] = none
read_addr (String.◌∷◌ c s) =
    let r = read_strokes s in
    if nat_eq (code c) b'4' then small4 r.0 else if nat_eq (code c) b'6' then read6 r else none

abbrev show : Addr → String
show (v4 n) = String.◌∷◌ "4" (strokes n "")
show (v6 n zone) = String.◌∷◌ "6" (strokes n (String.◌∷◌ "%" zone))

strokes_end : (n : ℕ) → read_strokes (strokes n "") ≡ (n, "")
unfolding read_strokes
strokes_end n = read_strokes-strokes n "" refl

strokes_upto :
    (n : ℕ) (c : Char) (s : String)
    → nat_eq (code c) b'1' ≡ false
    → read_strokes (strokes n (String.◌∷◌ c s)) ≡ (n, String.◌∷◌ c s)
unfolding read_strokes
strokes_upto n c s h = read_strokes-strokes n (String.◌∷◌ c s) (rw h refl)

small4-some : (n : ℕ) → n < 2 ^ 32 → small4 n ≡ some (v4 n)
small4-some n b = ground arith

small6-some : (n : ℕ) (zone : String) → n < 2 ^ 128 → small6 n zone ≡ some (v6 n zone)
small6-some n zone b = ground arith

pub read-show : (a : Addr) → IsAddr a → read_addr (show a) ≡ some a
unfolding read_addr read6
read-show (v4 n) b = ap (λ (r : ℕ × String). small4 r.0) (strokes_end n) ∙ small4-some n b
read-show (v6 n zone) b = ap read6 (strokes_upto n "%" zone refl) ∙ small6-some n zone b

read6-Good : (n : ℕ) (rest : String) → Good IsAddr (read6 (n, rest))
unfolding read6
read6-Good n String.[] = tt
read6-Good n (String.◌∷◌ c zone) = small6-Good n zone

pub read_addr-Good : (s : String) → Good IsAddr (read_addr s)
unfolding read_addr
read_addr-Good String.[] = tt
read_addr-Good (String.◌∷◌ c s) =
    Good-if IsAddr (nat_eq (code c) b'4') _ _ (λ h. small4-Good (read_strokes s).0)
      (Good-if IsAddr (nat_eq (code c) b'6') _ none
        (λ h. read6-Good (read_strokes s).0 (read_strokes s).1) tt)

-- A prefix: the digit of its family, and the strokes of its address and of its length.
abbrev small_prefix4 : ℕ → ℕ → Option Prefix
small_prefix4 n bits =
    if ltb n (2 ^ 32) && leb bits 32 then some (record { addr = v4 n; bits = bits }) else none

abbrev small_prefix6 : ℕ → ℕ → Option Prefix
small_prefix6 n bits =
    if ltb n (2 ^ 128) && leb bits 128 then some (record { addr = v6 n ""; bits = bits }) else none

small_prefix4-Good : (n bits : ℕ) → Good IsPrefix (small_prefix4 n bits)
small_prefix4-Good n bits =
    Good-if IsPrefix (ltb n (2 ^ 32) && leb bits 32) _ none (λ b. ground arith) tt

small_prefix6-Good : (n bits : ℕ) → Good IsPrefix (small_prefix6 n bits)
small_prefix6-Good n bits =
    Good-if IsPrefix (ltb n (2 ^ 128) && leb bits 128) _ none (λ b. ground arith) tt

abbrev bits_of : String → ℕ
bits_of String.[] = 0
bits_of (String.◌∷◌ c s) = (read_strokes s).0

unfoldable pub read_prefix : String → Option Prefix
unfolding read_strokes
read_prefix String.[] = none
read_prefix (String.◌∷◌ c s) =
    let r = read_strokes s in
    if nat_eq (code c) b'a'
    then small_prefix4 r.0 (bits_of r.1)
    else if nat_eq (code c) b'b'
    then small_prefix6 r.0 (bits_of r.1)
    else none

abbrev show_prefix : Prefix → String
show_prefix p = elim p.addr [
  | v4 n ↦ String.◌∷◌ "a" (strokes n (String.◌∷◌ "/" (strokes p.bits "")))
  | v6 n zone ↦ String.◌∷◌ "b" (strokes n (String.◌∷◌ "/" (strokes p.bits "")))
]

pub read_prefix-Good : (s : String) → Good IsPrefix (read_prefix s)
unfolding read_prefix
read_prefix-Good String.[] = tt
read_prefix-Good (String.◌∷◌ c s) =
    Good-if IsPrefix (nat_eq (code c) b'a') _ _
      (λ h. small_prefix4-Good (read_strokes s).0 (bits_of (read_strokes s).1))
      (Good-if IsPrefix (nat_eq (code c) b'b') _ none
        (λ h. small_prefix6-Good (read_strokes s).0 (bits_of (read_strokes s).1)) tt)

pub read-show_prefix :
    (a : Addr) (bits : ℕ)
    → Fits a bits
    → read_prefix (show_prefix (record { addr = a; bits = bits }))
      ≡ some (record { addr = a; bits = bits })
unfolding read_prefix
read-show_prefix (v4 n) bits f =
    ap (λ (r : ℕ × String). small_prefix4 r.0 (bits_of r.1))
      (strokes_upto n "/" (strokes bits "") refl)
    ∙ ap (λ (r : ℕ × String). small_prefix4 n r.0) (strokes_end bits)
    ∙ ground arith
read-show_prefix (v6 n zone) bits f =
    ap (λ (r : ℕ × String). small_prefix6 r.0 (bits_of r.1))
      (strokes_upto n "/" (strokes bits "") refl)
    ∙ ap (λ (r : ℕ × String). small_prefix6 n r.0) (strokes_end bits)
    ∙ ground arith

pub addr_no_prefix : (a : Addr) → read_prefix (show a) ≡ none
unfolding read_prefix
addr_no_prefix (v4 n) = refl
addr_no_prefix (v6 n zone) = refl

unfoldable pub stroke_text : NetText
stroke_text = record {
  parse_addr = read_addr;
  parse_prefix = read_prefix;
  show_addr = show;
  show_prefix = show_prefix;
  parse-show_addr = read-show;
  parse-show_prefix = λ p. read-show_prefix p.addr p.bits;
  addr_no_prefix = addr_no_prefix;
  parse_addr-IsAddr = λ s a. Good-some IsAddr (read_addr s) a (read_addr-Good s);
  parse_prefix-IsPrefix = λ s p. Good-some IsPrefix (read_prefix s) p (read_prefix-Good s);
}
