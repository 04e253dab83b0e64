-- ===== src/Services/Laws.antt =====
-- What a line of the services file does to the names.
use text.Mathlib.TextEquality.{eq_iff}
use text.Mathlib.TextPositions.{eq_refl}
use better_firewall.Prelude.{
  Bool, false, ◌||◌, List, [], ◌∷◌, String, Option, none, some, ◌==◌, String-eq, if◌then◌else◌, ◌≡◌,
  refl, arith, Option-cases, Bool-cases, inl, inr,
}
use better_firewall.Prelude.Int.{ℤ}
use better_firewall.Services.{
  Entry, Table, lookup, store, note_proto, new_entry, add_name, add_names,
}

pub lookup-store :
    (k j : String) (e : Entry) (t : Table)
    → lookup j (store k e t) ≡ (if k == j then some e else lookup j t)
unfolding lookup store
lookup-store k j e [] = refl
lookup-store k j e ((i, d) ∷ t) =
    ground (arith, eq_iff k j, eq_iff i k, eq_iff i j, lookup-store k j e t)

-- The entry of a name that one line mentions: its first port stays.
abbrev pub noted : ℤ → String → Option Entry → Entry
noted port proto none = note_proto proto (new_entry port)
noted port proto (some e) = note_proto proto e

lookup-add_name :
    (port : ℤ) (proto : String) (t : Table) (name j : String)
    → lookup j (add_name port proto t name)
      ≡ (if name == j then some (noted port proto (lookup name t)) else lookup j t)
unfolding add_name
lookup-add_name port proto t name j = elim (Option-cases (lookup name t)) [
  | inl e ↦ rw (e, add_name) (lookup-store name j _ t)
  | inr (d, e) ↦ rw (e, add_name) (lookup-store name j _ t)
]

noted_twice :
    (port : ℤ) (proto : String) (o : Option Entry)
    → noted port proto (some (noted port proto o)) ≡ noted port proto o
unfolding note_proto
noted_twice port proto none = ground arith
noted_twice port proto (some e) = ground arith

abbrev pub contains : String → List String → Bool
contains j [] = false
contains j (name ∷ names) = name == j || contains j names

-- A line gives each of its names its port, if the name has none yet, and adds its protocol to what
-- the name has; it leaves every other name as it is.
pub lookup-add_names :
    (port : ℤ) (proto : String) (t : Table) (names : List String) (j : String)
    → lookup j (add_names port proto t names)
      ≡ (if contains j names then some (noted port proto (lookup j t)) else lookup j t)
unfolding add_names
lookup-add_names port proto t [] j = refl
lookup-add_names port proto t (name ∷ names) j =
    rw
      (
        lookup-add_names port proto (add_name port proto t name) names j,
        lookup-add_name port proto t name j,
      )
      (elim (Bool-cases (name == j)) [
        | inl same ↦
            let e = (eq_iff name j).0 same in
            rw (e, eq_refl j) (ground (arith, noted_twice port proto (lookup j t)))
        | inr other ↦ rw other
      ])
