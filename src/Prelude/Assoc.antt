-- ===== src/Prelude/Assoc.antt =====
-- Go's maps as association lists, over keys whose equality is an instance.
use text.Mathlib.Text.{◌==◌ as str_eq}
use text.Mathlib.TextEquality.{eq_iff}
use Prim.Native.String.{String}
use mathlib.Core.Option
use infinid.Prelude.{
  ℕ, ◌≡◌, ◌↔◌, refl, ap, Bool, true, Option, none, some, List, [], ◌∷◌, ◌==◌, ==_iff, if◌then◌else◌,
  Bool-cases, inl, inr, arith,
}

pub record Eq {ℓ} (A : Type ℓ) : Type ℓ where
  pub beq : A → A → Bool
  pub beq_iff : (a b : A) → (beq a b ≡ true) ↔ (a ≡ b)

instance abbrev pub nat_eq : Eq ℕ
nat_eq = record { beq = ◌==◌; beq_iff = ==_iff }

instance abbrev pub string_eq : Eq String
string_eq = record { beq = str_eq; beq_iff = eq_iff }

module _ {ℓ κ} {K : Type ℓ} {V : Type κ} ⦃e : Eq K⦄ where
  unfoldable pub lookup : K → List (K × V) → Option V
  lookup k [] = none
  lookup k ((j, v) ∷ m) = if e.beq j k then some v else lookup k m

  -- `m[k] = v`
  unfoldable pub insert : K → V → List (K × V) → List (K × V)
  insert k v [] = (k, v) ∷ []
  insert k v ((j, w) ∷ m) = if e.beq j k then (k, v) ∷ m else (j, w) ∷ insert k v m

  -- `delete(m, k)`
  unfoldable pub erase : K → List (K × V) → List (K × V)
  erase k [] = []
  erase k ((j, v) ∷ m) = if e.beq j k then erase k m else (j, v) ∷ erase k m

  pub lookup-insert :
      (k j : K) (v : V) (m : List (K × V))
      → lookup j (insert k v m) ≡ (if e.beq k j then some v else lookup j m)
  unfolding lookup insert
  lookup-insert k j v [] = refl
  lookup-insert k j v ((i, w) ∷ m) =
      ground (arith, e.beq_iff k j, e.beq_iff i k, e.beq_iff i j, lookup-insert k j v m)

  pub lookup-erase :
      (k j : K) (m : List (K × V)) → lookup j (erase k m) ≡ (if e.beq k j then none else lookup j m)
  unfolding lookup erase
  lookup-erase k j [] = ground arith
  lookup-erase k j ((i, w) ∷ m) =
      ground (arith, e.beq_iff k j, e.beq_iff i k, e.beq_iff i j, lookup-erase k j m)

  -- A change of every value, which may look at the key.
  unfoldable pub map_values {μ} : {W : Type μ} → (K → V → W) → List (K × V) → List (K × W)
  map_values f [] = []
  map_values f ((k, v) ∷ m) = (k, f k v) ∷ map_values f m

pub beq_self {ℓ} : {K : Type ℓ} ⦃e : Eq K⦄ (k : K) → e.beq k k ≡ true
beq_self ⦃e⦄ k = (e.beq_iff k k).1 refl

pub lookup-map_values {ℓ κ μ} :
    {K : Type ℓ} {V : Type κ} {W : Type μ} ⦃e : Eq K⦄ (f : K → V → W) (k : K) (m : List (K × V))
    → lookup k (map_values f m) ≡ Option.map (f k) (lookup k m)
unfolding lookup map_values
lookup-map_values f k [] = refl
lookup-map_values ⦃e⦄ f k ((j, v) ∷ m) = elim (Bool-cases (e.beq j k)) [
  | inl same ↦ rw same (ap (λ i. some (f i v)) ((e.beq_iff j k).0 same))
  | inr other ↦ rw other (lookup-map_values f k m)
]
