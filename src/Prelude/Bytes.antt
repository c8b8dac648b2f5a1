-- ===== src/Prelude/Bytes.antt =====
-- Go's byte slices and strings, as the list of their bytes: equality, order, membership, and the
-- hexadecimal of encoding/hex.
use infinid.Prelude.Assoc.{Eq, nat_eq}
use infinid.Prelude.{
  ℕ, ◌+◌, ◌-◌, ◌/◌, ◌%◌, ◌≡◌, ◌↔◌, refl, ◌∙◌, Bool, true, false, ◌&&◌, ◌||◌, List, [], ◌∷◌, ◌++◌,
  ltb, ◌==◌, if◌then◌else◌, arith,
}

-- `bytes.Equal(a, b)`
unfoldable pub bytes_beq : List ℕ → List ℕ → Bool
bytes_beq [] [] = true
bytes_beq [] (y ∷ ys) = false
bytes_beq (x ∷ xs) [] = false
bytes_beq (x ∷ xs) (y ∷ ys) = x == y && bytes_beq xs ys

pub bytes_beq_iff : (a b : List ℕ) → (bytes_beq a b ≡ true) ↔ (a ≡ b)
unfolding bytes_beq
bytes_beq_iff [] [] = ground arith
bytes_beq_iff [] (y ∷ ys) = ground arith
bytes_beq_iff (x ∷ xs) [] = ground arith
bytes_beq_iff (x ∷ xs) (y ∷ ys) = ground (arith, bytes_beq_iff xs ys)

instance abbrev pub bytes_eq : Eq (List ℕ)
bytes_eq = record { beq = bytes_beq; beq_iff = bytes_beq_iff }

-- `a < b`, of strings
unfoldable pub bytes_lt : List ℕ → List ℕ → Bool
bytes_lt a [] = false
bytes_lt [] (y ∷ ys) = true
bytes_lt (x ∷ xs) (y ∷ ys) = ltb x y || (x == y && bytes_lt xs ys)

module _ {ℓ} {A : Type ℓ} ⦃e : Eq A⦄ where
  unfoldable pub contains : List A → A → Bool
  contains [] a = false
  contains (x ∷ xs) a = e.beq x a || contains xs a

  pub contains-append :
      (xs ys : List A) (a : A) → contains (xs ++ ys) a ≡ (contains xs a || contains ys a)
  unfolding contains
  contains-append [] ys a = refl
  contains-append (x ∷ xs) ys a = ground (arith, contains-append xs ys a)

  -- No entry occurs twice.
  abbrev pub Distinct : List A → Type 0
  Distinct [] = Unit {0}
  Distinct (x ∷ xs) = (contains xs x ≡ false) × Distinct xs

  pub Distinct-append :
      (xs : List A) (a : A) → Distinct xs → contains xs a ≡ false → Distinct (xs ++ a ∷ [])
  unfolding contains
  Distinct-append [] a d new = (refl, tt)
  Distinct-append (x ∷ xs) a d new = (
    contains-append xs (a ∷ []) x ∙ ground (arith, d.0, e.beq_iff x a, e.beq_iff a x),
    Distinct-append xs a d.1 (ground arith),
  )

abbrev pub hex_digit : ℕ → ℕ
hex_digit n = if ltb n 10 then b'0' + n else b'a' + (n - 10)

-- `hex.EncodeToString`
abbrev pub hex : List ℕ → List ℕ
hex [] = []
hex (b ∷ bs) = hex_digit (b / 16) ∷ hex_digit (b % 16) ∷ hex bs
