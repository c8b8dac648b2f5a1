-- ===== src/Prelude/Run.antt =====
-- A Go computation that may panic, and checked indexing.
use infinid.Prelude.{ℕ, zero, suc, ◌<◌, ◌≡◌, refl, List, [], ◌∷◌, length, get_or, arith}

pub data Run {ℓ} (A : Type ℓ) : Type ℓ where
  ret : A → Run A
  panic : Run A

infixl 5 ◌>>=◌
abbrev pub ◌>>=◌ {ℓ κ} : {A : Type ℓ} {B : Type κ} → Run A → (A → Run B) → Run B
ret a >>= f = f a
panic >>= f = panic

-- `p[i]`
unfoldable pub at {ℓ} : {A : Type ℓ} → List A → ℕ → Run A
at [] i = panic
at (x ∷ xs) zero = ret x
at (x ∷ xs) (suc i) = at xs i

pub at-eq-ret {ℓ} :
    {A : Type ℓ} (xs : List A) (i : ℕ) (d : A) → i < length xs → at xs i ≡ ret (get_or xs i d)
unfolding at
at-eq-ret [] i d h = absurd (omega arith)
at-eq-ret (x ∷ xs) zero d h = refl
at-eq-ret (x ∷ xs) (suc i) d h = at-eq-ret xs i d (omega arith)

pub ret-injective {ℓ} : {A : Type ℓ} {a b : A} → ◌≡◌ {A = Run A} (ret a) (ret b) → a ≡ b
ret-injective e = cc

-- A computation does not panic, and what it returns has the property.
pub record Returns {ℓ κ} {A : Type ℓ} (P : A → Type κ) (r : Run A) : Type (ℓ ⊔ κ) where
  pub value : A
  pub eq : r ≡ ret value
  pub holds : P value

pub returns {ℓ κ} : {A : Type ℓ} {P : A → Type κ} (a : A) → P a → Returns P (ret a)
returns a h = record { value = a; eq = refl; holds = h }

pub Returns-bind {ℓ κ μ ν} :
    {A : Type ℓ} {B : Type κ} (P : A → Type μ) (Q : B → Type ν) (r : Run A) (k : A → Run B)
    → Returns P r
    → ((a : A) → P a → Returns Q (k a))
    → Returns Q (r >>= k)
Returns-bind P Q r k h f =
    let g = f h.value h.holds in record { value = g.value; eq = rw h.eq g.eq; holds = g.holds }

pub bind_ext {ℓ κ} :
    {A : Type ℓ} {B : Type κ} (r : Run A) (f g : A → Run B)
    → ((a : A) → f a ≡ g a)
    → (r >>= f) ≡ (r >>= g)
bind_ext (ret a) f g h = h a
bind_ext panic f g h = refl
