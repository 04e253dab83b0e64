-- ===== src/Prelude/Result.antt =====
-- Results that are a value or an error.
use mathlib.Core.Path.{◌≡◌, ap, subst}

pub data Result {ℓ κ} (E : Type ℓ) (A : Type κ) : Type (ℓ ⊔ κ) where
  ok : A → Result E A
  err : E → Result E A

infixl 5 ◌>>=◌
abbrev pub ◌>>=◌ {ℓ κ μ} :
    {E : Type ℓ} {A : Type κ} {B : Type μ} → Result E A → (A → Result E B) → Result E B
ok a >>= f = f a
err e >>= f = err e

pub bind_left {ℓ κ μ} :
    {E : Type ℓ} {A : Type κ} {B : Type μ} (m n : Result E A) (f : A → Result E B)
    → m ≡ n
    → (m >>= f) ≡ (n >>= f)
bind_left m n f h = ap (λ r. r >>= f) h

-- A value that is returned has a property.
abbrev pub Ensures {ℓ κ μ} : {E : Type ℓ} {A : Type κ} → (A → Type μ) → Result E A → Type μ
Ensures P (ok a) = P a
Ensures P (err e) = Unit

pub Ensures-bind {ℓ κ μ} :
    {E : Type ℓ} {A B : Type κ} (P : A → Type μ) (Q : B → Type μ) (m : Result E A)
    (f : A → Result E B)
    → Ensures P m
    → ((a : A) → P a → Ensures Q (f a))
    → Ensures Q (m >>= f)
Ensures-bind P Q (ok a) f p k = k a p
Ensures-bind P Q (err e) f p k = tt

-- The value of an equation with `ok`.
pub Ensures-ok {ℓ κ μ} :
    {E : Type ℓ} {A : Type κ} (P : A → Type μ) (m : Result E A) (a : A)
    → Ensures P m
    → m ≡ ok a
    → P a
Ensures-ok P m a h e = subst (Ensures P) e h

pub Ensures-map {ℓ κ μ} :
    {E : Type ℓ} {A : Type κ} (P Q : A → Type μ) (m : Result E A)
    → ((a : A) → P a → Q a)
    → Ensures P m
    → Ensures Q m
Ensures-map P Q (ok a) f p = f a p
Ensures-map P Q (err e) f p = tt
