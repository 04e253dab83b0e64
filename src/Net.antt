-- ===== src/Net.antt =====
-- What the program uses of Go's net/netip: addresses and prefixes as numbers. Their text form is an
-- interface, `NetText`; 32 and 128 bits are the widths of the two families.
pub mod Mapped
use better_firewall.Prelude.{
  ℕ, ◌+◌, ◌-◌, ◌*◌, ◌/◌, ◌%◌, ◌^◌, ◌≤◌, ◌<◌, Bool, true, false, not, ◌&&◌, ◌||◌, List, String,
  Option, none, some, ltb, leb, nat_eq, ◌==◌, String-eq, if◌then◌else◌, ◌≡◌,
}

pub data Addr : Type 0 where
  v4 : ℕ → Addr
  v6 : ℕ → String → Addr

pub record Prefix : Type 0 where
  pub addr : Addr
  pub bits : ℕ

-- `Is4In6`: ::ffff:0:0/96.
unfoldable pub is4in6 : Addr → Bool
is4in6 (v4 n) = false
is4in6 (v6 n zone) = nat_eq (n / 2 ^ 32) 65535

unfoldable pub is4 : Addr → Bool
is4 (v4 n) = true
is4 (v6 n zone) = false

-- `WithZone("")`.
unfoldable pub without_zone : Addr → Addr
without_zone (v4 n) = v4 n
without_zone (v6 n zone) = v6 n ""

unfoldable pub unmap : Addr → Addr
unfolding is4in6
unmap (v4 n) = v4 n
unmap (v6 n zone) = if is4in6 (v6 n zone) then v4 (n % 2 ^ 32) else v6 n zone

-- The number without its last `k` bits.
pub clear : ℕ → ℕ → ℕ
clear k n = n / 2 ^ k * 2 ^ k

pub mask_addr : ℕ → Addr → Addr
unfolding clear
mask_addr bits (v4 n) = v4 (clear (32 - bits) n)
mask_addr bits (v6 n zone) = v6 (clear (128 - bits) n) zone

-- `Masked`.
pub masked : Prefix → Prefix
masked p = record { addr = mask_addr p.bits p.addr; bits = p.bits }

unfoldable pub in_prefix : ℕ → Addr → Addr → Bool
in_prefix bits (v4 n) (v4 m) = nat_eq (n / 2 ^ (32 - bits)) (m / 2 ^ (32 - bits))
in_prefix bits (v6 n z) (v6 m zone) =
    zone == "" && nat_eq (n / 2 ^ (128 - bits)) (m / 2 ^ (128 - bits))
in_prefix bits _ _ = false

-- The bits of an address of its family.
abbrev pub bit_len : Addr → ℕ
bit_len (v4 n) = 32
bit_len (v6 n zone) = 128

-- `Contains`: of one family, no zone, and equal in the leading bits. A prefix with more bits than its
-- address has is not valid, and contains nothing.
unfoldable pub contains : Prefix → Addr → Bool
unfolding in_prefix
contains p ip = leb p.bits (bit_len p.addr) && in_prefix p.bits p.addr ip

abbrev pub Fits : Addr → ℕ → Type 0
Fits (v4 n) bits = (n < 2 ^ 32) × (bits ≤ 32)
Fits (v6 n zone) bits = (n < 2 ^ 128) × (bits ≤ 128) × (zone ≡ "")

-- A prefix as ParsePrefix and PrefixFrom give it: no zone, and no more bits than the address has.
abbrev pub IsPrefix : Prefix → Type 0
IsPrefix p = Fits p.addr p.bits

abbrev pub IsAddr : Addr → Type 0
IsAddr (v4 n) = n < 2 ^ 32
IsAddr (v6 n zone) = n < 2 ^ 128

-- The text form of addresses and prefixes (ParseAddr, ParsePrefix and the String methods), with
-- what the documentation of net/netip says of it: an address or prefix that is written is read
-- back, neither is taken for the other, and only well-formed ones are read.
pub record NetText : Type 0 where
  pub parse_addr : String → Option Addr
  pub parse_prefix : String → Option Prefix
  pub show_addr : Addr → String
  pub show_prefix : Prefix → String
  pub parse-show_addr : (a : Addr) → IsAddr a → parse_addr (show_addr a) ≡ some a
  pub parse-show_prefix : (p : Prefix) → IsPrefix p → parse_prefix (show_prefix p) ≡ some p
  pub addr_no_prefix : (a : Addr) → parse_prefix (show_addr a) ≡ none
  pub parse_addr-IsAddr : (s : String) (a : Addr) → parse_addr s ≡ some a → IsAddr a
  pub parse_prefix-IsPrefix : (s : String) (p : Prefix) → parse_prefix s ≡ some p → IsPrefix p

-- The treatment of an IPv4-mapped prefix that parsePrefix, crowdSecAddress and canonicalBanAddress
-- share; `none` is the error for a prefix broader than IPv4.
pub unmap_prefix : Prefix → Option Prefix
unfolding masked mask_addr is4in6 unmap
unmap_prefix p =
    let m = masked p in
    if is4in6 m.addr
    then if ltb m.bits 96
      then none
      else some (masked (record { addr = unmap m.addr; bits = m.bits - 96 }))
    else some m
