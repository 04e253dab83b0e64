-- ===== src/Prelude/Lists.antt =====
-- Lists measured and indexed by native numbers, under the library's names.
use Prim.Native.Nat.{ℕ, zero, suc, ◌+◌}
use mathlib.Core.Bool.{Bool, true}
use better_firewall.Prelude.Tests.{if◌then◌else◌, Bool-cases}
use mathlib.Core.Path.{◌≡◌, refl, ap}
use mathlib.Core.Logic.{◌⊎◌, inl, inr}
use mathlib.Core.Option
use mathlib.Core.List.{List, [], ◌∷◌, ◌++◌, map}
use mathlib.Core.Option.{Option, none, some}
use native.Mathlib.Omega.{arith}

module _ {ℓ} {A : Type ℓ} where
  abbrev pub length : List A → ℕ
  length [] = 0
  length (x ∷ xs) = suc (length xs)

  abbrev pub get_elem? : List A → ℕ → Option A
  get_elem? [] i = none
  get_elem? (x ∷ xs) zero = some x
  get_elem? (x ∷ xs) (suc i) = get_elem? xs i

  -- A write out of bounds changes nothing.
  abbrev pub set : List A → ℕ → A → List A
  set [] i v = []
  set (x ∷ xs) zero v = v ∷ xs
  set (x ∷ xs) (suc i) v = x ∷ set xs i v

  pub length-append : (xs ys : List A) → length (xs ++ ys) ≡ length xs + length ys
  length-append [] ys = omega arith
  length-append (x ∷ xs) ys = omega (arith, length-append xs ys)

module _ {ℓ} {A : Type ℓ} where
  pub length-set : (xs : List A) (i : ℕ) (v : A) → length (set xs i v) ≡ length xs
  length-set [] i v = refl
  length-set (x ∷ xs) zero v = refl
  length-set (x ∷ xs) (suc i) v = ap suc (length-set xs i v)

module _ {ℓ} {A : Type ℓ} where
  abbrev pub get_or : List A → ℕ → A → A
  get_or [] i d = d
  get_or (x ∷ xs) zero d = x
  get_or (x ∷ xs) (suc i) d = get_or xs i d

  abbrev pub take : ℕ → List A → List A
  take zero xs = []
  take (suc n) [] = []
  take (suc n) (x ∷ xs) = x ∷ take n xs

  abbrev pub drop : ℕ → List A → List A
  drop zero xs = xs
  drop (suc n) [] = []
  drop (suc n) (x ∷ xs) = drop n xs

  abbrev pub replicate : ℕ → A → List A
  replicate zero a = []
  replicate (suc n) a = a ∷ replicate n a

  pub length-map {κ} : {B : Type κ} (xs : List A) (f : A → B) → length (map f xs) ≡ length xs
  length-map [] f = refl
  length-map (x ∷ xs) f = ap suc (length-map xs f)

module _ {ℓ} {A : Type ℓ} (p : A → Bool) where
  -- The elements that pass a test, in their order.
  abbrev pub keep : List A → List A
  keep [] = []
  keep (x ∷ xs) = let rest = keep xs in if p x then x ∷ rest else rest

  pub keep-append : (xs ys : List A) → keep (xs ++ ys) ≡ keep xs ++ keep ys
  keep-append [] ys = refl
  keep-append (x ∷ xs) ys = ground (arith, keep-append xs ys)

module _ {ℓ} {A : Type ℓ} (p q : A → Bool) (h : (x : A) → p x ≡ true → q x ≡ true) where
  -- What a stricter test takes out need not be there.
  pub keep-keep : (xs : List A) → keep p (keep q xs) ≡ keep p xs
  keep-keep [] = refl
  keep-keep (x ∷ xs) = elim (Bool-cases (q x)) [
    | inl e ↦ rw e (ap (λ l. if p x then x ∷ l else l) (keep-keep xs))
    | inr e ↦ elim (Bool-cases (p x)) [
      | inl f ↦ absurd (ground (arith, e, h x f))
      | inr f ↦ rw (e, f) (keep-keep xs)
    ]
  ]

module _ {ℓ} {A : Type ℓ} where
  pub get_elem?-append_left :
      (xs ys : List A) (n : ℕ) {k : A} → get_elem? xs n ≡ some k → get_elem? (xs ++ ys) n ≡ some k
  get_elem?-append_left [] ys n h = cc
  get_elem?-append_left (x ∷ xs) ys zero h = h
  get_elem?-append_left (x ∷ xs) ys (suc n) h = get_elem?-append_left xs ys n h

  pub get_elem?-append_right :
      (xs ys : List A) (m : ℕ) → get_elem? (xs ++ ys) (length xs + m) ≡ get_elem? ys m
  get_elem?-append_right [] ys m = ap (get_elem? ys) (omega arith)
  get_elem?-append_right (x ∷ xs) ys m =
      let e : suc (length xs) + m ≡ suc (length xs + m) = omega arith in
      rw e (get_elem?-append_right xs ys m)

  -- An index is within the list, or beyond it by some number.
  pub get_elem?-cases :
      (xs : List A) (n : ℕ)
      → ((k : A) × (get_elem? xs n ≡ some k))
        ⊎ ((m : ℕ) × (n ≡ length xs + m) × (get_elem? xs n ≡ none))
  get_elem?-cases [] n = inr (n, omega arith, refl)
  get_elem?-cases (x ∷ xs) zero = inl (x, refl)
  get_elem?-cases (x ∷ xs) (suc n) = elim (get_elem?-cases xs n) [
    | inl (k, e) ↦ inl (k, e)
    | inr (m, e, f) ↦ inr (m, omega arith, f)
  ]

  pub get_elem?-map {κ} :
      {B : Type κ} (f : A → B) (xs : List A) (n : ℕ)
      → get_elem? (map f xs) n ≡ Option.map f (get_elem? xs n)
  get_elem?-map f [] n = refl
  get_elem?-map f (x ∷ xs) zero = refl
  get_elem?-map f (x ∷ xs) (suc n) = get_elem?-map f xs n

module _ {ℓ κ} {A : Type ℓ} (P : A → Type κ) where
  -- A predicate holds of every element.
  abbrev pub All : List A → Type κ
  All [] = Unit
  All (x ∷ xs) = P x × All xs

  pub All-append : (xs ys : List A) → All xs → All ys → All (xs ++ ys)
  All-append [] ys h k = k
  All-append (x ∷ xs) ys (p, h) k = (p, All-append xs ys h k)

  pub All-keep : (p : A → Bool) (xs : List A) → All xs → All (keep p xs)
  All-keep p [] h = tt
  All-keep p (x ∷ xs) (q, h) = ground (arith, All-keep p xs h)

  pub All-take : (n : ℕ) (xs : List A) → All xs → All (take n xs)
  All-take zero xs h = tt
  All-take (suc n) [] h = tt
  All-take (suc n) (x ∷ xs) (q, h) = (q, All-take n xs h)

  pub All-drop : (n : ℕ) (xs : List A) → All xs → All (drop n xs)
  All-drop zero xs h = h
  All-drop (suc n) [] h = tt
  All-drop (suc n) (x ∷ xs) (q, h) = All-drop n xs h

  pub All-map {μ} : {B : Type μ} (f : B → A) (xs : List B) → ((b : B) → P (f b)) → All (map f xs)
  All-map f [] h = tt
  All-map f (x ∷ xs) h = (h x, All-map f xs h)
