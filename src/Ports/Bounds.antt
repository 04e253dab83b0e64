-- ===== src/Ports/Bounds.antt =====
-- The port ranges that are parsed lie within bounds, and a profile's port list is valid exactly
-- when it can be parsed.
use mathlib.Core.Option.{some-injective}
use better_firewall.Prelude.{
  ℕ, ◌≤◌, Bool, true, false, List, [], ◌∷◌, String, Option, none, some, ◌==◌, String-eq,
  if◌then◌else◌, ◌≡◌, refl, arith, Option-cases, inl, inr, subst, split_char,
}
use better_firewall.Prelude.Int.{ℤ, pos}
use better_firewall.Rule.{PortRange}
use better_firewall.Services.{Table, proto}
use better_firewall.Ports.{
  u16, bad_range, parse_item, append_item, parse_items, parse_port_ranges, valid_item, valid_items,
  valid_port_list,
}

-- A port range that the firewall can use.
abbrev pub InBounds : PortRange → Type 0
InBounds r = (1 ≤ r.lo) × (r.lo ≤ r.hi) × (r.hi ≤ 65535)

abbrev pub AllInBounds : List PortRange → Type 0
AllInBounds [] = Unit
AllInBounds (r ∷ rs) = InBounds r × AllInBounds rs

-- The services file names only ports from 1 to 65535.
abbrev pub HasPorts : Table → Type 0
HasPorts table =
    (name : String) (n : ℤ) (p : String)
    → proto table name ≡ some (n, p)
    → (k : ℕ) × (n ≡ pos k) × (1 ≤ k) × (k ≤ 65535)

u16-InBounds :
    (n : ℤ) → ((k : ℕ) × (n ≡ pos k) × (1 ≤ k) × (k ≤ 65535)) → (1 ≤ u16 n) × (u16 n ≤ 65535)
unfolding u16
u16-InBounds n (k, e, a, b) = rw e (omega arith)

parse_item-InBounds :
    (table : Table) (p : String) (r : PortRange)
    → HasPorts table
    → parse_item table p ≡ some r
    → InBounds r
unfolding parse_item bad_range
parse_item-InBounds table p r ok h = elim (Option-cases (proto table p)) [
  | inl e ↦ ground arith
  | inr ((n, s), e) ↦ let b = u16-InBounds n (ok p n s e) in ground arith
]

append_item-AllInBounds :
    (o : Option PortRange) (os : Option (List PortRange)) (rs : List PortRange)
    → ((r : PortRange) → o ≡ some r → InBounds r)
    → ((qs : List PortRange) → os ≡ some qs → AllInBounds qs)
    → append_item o os ≡ some rs
    → AllInBounds rs
append_item-AllInBounds none os rs f g e = cc
append_item-AllInBounds (some r) none rs f g e = cc
append_item-AllInBounds (some r) (some qs) rs f g e =
    subst AllInBounds (some-injective _ _ e) (f r refl, g qs refl)

parse_items-AllInBounds :
    (table : Table) (ps : List String) (rs : List PortRange)
    → HasPorts table
    → parse_items table ps ≡ some rs
    → AllInBounds rs
unfolding parse_items
parse_items-AllInBounds table [] rs ok h = subst AllInBounds (some-injective _ _ h) tt
parse_items-AllInBounds table (p ∷ ps) rs ok h =
    append_item-AllInBounds (parse_item table p) (parse_items table ps) rs
      (λ r. parse_item-InBounds table p r ok) (λ qs. parse_items-AllInBounds table ps qs ok) h

-- If the services file names only ports from 1 to 65535, then every range that a port expression
-- is parsed to has 1 ≤ lo ≤ hi ≤ 65535.
pub parse_port_ranges-AllInBounds :
    (table : Table) (port : String) (rs : List PortRange)
    → HasPorts table
    → parse_port_ranges table port ≡ some rs
    → AllInBounds rs
unfolding parse_port_ranges
parse_port_ranges-AllInBounds table port rs ok h =
    parse_items-AllInBounds table (split_char b',' port) rs ok (ground arith)

abbrev pub parsed : {A : Type 0} → Option A → Bool
parsed none = false
parsed (some _) = true

valid_item-parsed : (table : Table) (p : String) → valid_item table p ≡ parsed (parse_item table p)
unfolding valid_item parse_item
valid_item-parsed table p = ground arith

parsed-append_item :
    (o : Option PortRange) (os : Option (List PortRange))
    → parsed (append_item o os) ≡ (if parsed o then parsed os else false)
parsed-append_item none os = refl
parsed-append_item (some r) none = refl
parsed-append_item (some r) (some rs) = refl

valid_items-parsed :
    (table : Table) (ps : List String) → valid_items table ps ≡ parsed (parse_items table ps)
unfolding valid_items parse_items
valid_items-parsed table [] = refl
valid_items-parsed table (p ∷ ps) = rw (
  parsed-append_item (parse_item table p) (parse_items table ps),
  valid_item-parsed table p,
  valid_items-parsed table ps,
)

-- The check of an application profile's port list accepts "any" and exactly the expressions that
-- the rule parser turns into port ranges.
pub valid_port_list-parsed :
    (table : Table) (ports : String)
    → valid_port_list table ports
      ≡ (if ports == "any" then true else parsed (parse_port_ranges table ports))
unfolding valid_port_list parse_port_ranges
valid_port_list-parsed table ports =
    ground (arith, valid_items-parsed table (split_char b',' ports))
