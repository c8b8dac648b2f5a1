-- ===== src/Prelude/Bits.antt =====
-- Laws of the bit operations at variables: one equation for the lowest digit of each, and what
-- follows from it by induction on the width.
use Prim.Native.Nat.{max, digits, bitwise, differ, bit_or-bitwise, bit_xor-bitwise, bit_and-bitwise}
use native.Mathlib.Nat.{le_refl, pow-suc}
use infinid.Prelude.{
  ℕ, zero, suc, ◌+◌, ◌*◌, ◌/◌, ◌%◌, ◌^◌, ◌≤◌, ◌<◌, min, bit_and, bit_or, bit_xor, ◌≡◌, refl, ap,
  arith,
}

module _ (rest : ℕ → ℕ) (digit : ℕ → ℕ → ℕ) where
  enough_fuel : (n m a b : ℕ) → a ≤ n → a ≤ m → digits rest digit n a b ≡ digits rest digit m a b
  enough_fuel zero zero a b p q = refl
  enough_fuel zero (suc m) zero b p q = refl
  enough_fuel zero (suc m) (suc a) b p q = absurd (omega arith)
  enough_fuel (suc n) zero zero b p q = refl
  enough_fuel (suc n) zero (suc a) b p q = absurd (omega arith)
  enough_fuel (suc n) (suc m) zero b p q = refl
  enough_fuel (suc n) (suc m) (suc a) b p q =
      rw (enough_fuel n m (suc a / 2) (b / 2) (omega arith) (omega arith))

  lowest :
      (a b : ℕ)
      → bitwise rest digit (suc a) b
        ≡ bitwise rest digit (suc a / 2) (b / 2) * 2 + digit (suc a % 2) (b % 2)
  lowest a b =
      omega (arith, enough_fuel a (suc a / 2) (suc a / 2) (b / 2) (omega arith) (le_refl _))

pub xor_digit : (a b : ℕ) → bit_xor a b ≡ bit_xor (a / 2) (b / 2) * 2 + differ (a % 2) (b % 2)
xor_digit zero b = simp bit_xor-bitwise (omega arith)
xor_digit (suc a) b = simp bit_xor-bitwise (lowest (λ y. y) differ a b)

pub or_digit : (a b : ℕ) → bit_or a b ≡ bit_or (a / 2) (b / 2) * 2 + max (a % 2) (b % 2)
or_digit zero b = simp bit_or-bitwise (omega arith)
or_digit (suc a) b = simp bit_or-bitwise (lowest (λ y. y) max a b)

pub and_digit : (a b : ℕ) → bit_and a b ≡ bit_and (a / 2) (b / 2) * 2 + min (a % 2) (b % 2)
and_digit zero b = simp bit_and-bitwise (omega arith)
and_digit (suc a) b = simp bit_and-bitwise (lowest (λ y. 0) min a b)

-- The digits of `differ`: each is a digit, and a second application undoes the first.
differ_digit : (a b : ℕ) → a < 2 → b < 2 → differ a b < 2
differ_digit zero b p q = q
differ_digit (suc zero) zero p q = p
differ_digit (suc zero) (suc zero) p q = omega arith
differ_digit _ _ p q = absurd (omega arith)

differ_undo : (a b : ℕ) → a < 2 → b < 2 → differ (differ a b) b ≡ a
differ_undo zero zero p q = refl
differ_undo zero (suc zero) p q = refl
differ_undo (suc zero) zero p q = refl
differ_undo (suc zero) (suc zero) p q = refl
differ_undo _ _ p q = absurd (omega arith)

pub xor-half : (a b : ℕ) → bit_xor a b / 2 ≡ bit_xor (a / 2) (b / 2)
xor-half a b = omega (arith, xor_digit a b, differ_digit (a % 2) (b % 2))

pub xor-parity : (a b : ℕ) → bit_xor a b % 2 ≡ differ (a % 2) (b % 2)
xor-parity a b = omega (arith, xor_digit a b, differ_digit (a % 2) (b % 2))

xor_undo_fuel : (n a b : ℕ) → a ≤ n → b ≤ n → bit_xor (bit_xor a b) b ≡ a
xor_undo_fuel zero zero zero p q = refl
xor_undo_fuel (suc n) a b p q = omega (
  arith,
  xor_digit (bit_xor a b) b,
  ap (λ (t : ℕ). bit_xor t (b / 2)) (xor-half a b),
  ap (λ (t : ℕ). differ t (b % 2)) (xor-parity a b),
  differ_undo (a % 2) (b % 2),
  xor_undo_fuel n (a / 2) (b / 2) (omega arith) (omega arith),
)
xor_undo_fuel _ _ _ p q = absurd (omega arith)

-- A second exclusive or with the same number undoes the first.
pub xor_undo : (a b : ℕ) → bit_xor (bit_xor a b) b ≡ a
xor_undo a b = xor_undo_fuel (a + b) a b (omega arith) (omega arith)

pub xor-lt : (k a b : ℕ) → a < 2 ^ k → b < 2 ^ k → bit_xor a b < 2 ^ k
xor-lt zero zero zero p q = omega arith
xor-lt (suc k) a b p q = omega (
  arith,
  pow-suc 2 k,
  xor-half a b,
  xor-lt k (a / 2) (b / 2) (omega (arith, pow-suc 2 k)) (omega (arith, pow-suc 2 k)),
)
xor-lt zero _ _ p q = absurd (omega arith)

xor_comm_fuel : (n a b : ℕ) → a ≤ n → b ≤ n → bit_xor a b ≡ bit_xor b a
xor_comm_fuel zero zero zero p q = refl
xor_comm_fuel (suc n) a b p q = omega (
  arith,
  xor_digit a b,
  xor_digit b a,
  differ_comm (a % 2) (b % 2),
  xor_comm_fuel n (a / 2) (b / 2) (omega arith) (omega arith),
)
  where
    differ_comm : (x y : ℕ) → differ x y ≡ differ y x
    differ_comm zero zero = refl
    differ_comm zero (suc y) = refl
    differ_comm (suc x) zero = refl
    differ_comm (suc x) (suc y) = differ_comm x y
xor_comm_fuel _ _ _ p q = absurd (omega arith)

pub xor_comm : (a b : ℕ) → bit_xor a b ≡ bit_xor b a
xor_comm a b = xor_comm_fuel (a + b) a b (omega arith) (omega arith)

-- The last bit of a word, as `& 1` reads it.
and-zero_fuel : (n a : ℕ) → a ≤ n → bit_and a 0 ≡ 0
and-zero_fuel zero zero h = refl
and-zero_fuel (suc n) a h = omega (arith, and_digit a 0, and-zero_fuel n (a / 2) (omega arith))
and-zero_fuel _ _ h = absurd (omega arith)

pub and_one : (a : ℕ) → bit_and a 1 ≡ a % 2
and_one a = omega (arith, and_digit a 1, and-zero_fuel a (a / 2) (omega arith))

or-zero_fuel : (n a : ℕ) → a ≤ n → bit_or a 0 ≡ a
or-zero_fuel zero zero h = refl
or-zero_fuel (suc n) a h = omega (arith, or_digit a 0, or-zero_fuel n (a / 2) (omega arith))
or-zero_fuel _ _ h = absurd (omega arith)

zero-or : (b : ℕ) → bit_or 0 b ≡ b
zero-or b = simp bit_or-bitwise

-- Two fields that do not overlap are joined by a sum, whichever stands first.
pub or_low_high : (k lo hi : ℕ) → lo < 2 ^ k → bit_or lo (hi * 2 ^ k) ≡ lo + hi * 2 ^ k
or_low_high zero zero hi h = omega (arith, zero-or (hi * 2 ^ 0))
or_low_high (suc k) lo hi h = omega (
  arith,
  or_digit lo (hi * 2 ^ suc k),
  ap (λ (t : ℕ). hi * t) (pow-suc 2 k),
  pow-suc 2 k,
  ap (λ (t : ℕ). bit_or (lo / 2) t) half,
  or_low_high k (lo / 2) hi (omega (arith, pow-suc 2 k)),
)
  where
    half : hi * 2 ^ suc k / 2 ≡ hi * 2 ^ k
    half = omega (arith, ap (λ (t : ℕ). hi * t) (pow-suc 2 k))
or_low_high zero _ hi h = absurd (omega arith)

pub or_high_low : (k hi lo : ℕ) → lo < 2 ^ k → bit_or (hi * 2 ^ k) lo ≡ hi * 2 ^ k + lo
or_high_low zero hi zero h = omega (arith, or-zero_fuel (hi * 1) (hi * 1))
or_high_low (suc k) hi lo h = omega (
  arith,
  or_digit (hi * 2 ^ suc k) lo,
  ap (λ (t : ℕ). hi * t) (pow-suc 2 k),
  pow-suc 2 k,
  ap (λ (t : ℕ). bit_or t (lo / 2)) half,
  or_high_low k hi (lo / 2) (omega (arith, pow-suc 2 k)),
)
  where
    half : hi * 2 ^ suc k / 2 ≡ hi * 2 ^ k
    half = omega (arith, ap (λ (t : ℕ). hi * t) (pow-suc 2 k))
or_high_low zero hi _ h = absurd (omega arith)

-- A top bit that only one side has is in the result.
pub le-xor : (k a b : ℕ) → a < 2 ^ k → 2 ^ k ≤ b → b < 2 * 2 ^ k → 2 ^ k ≤ bit_xor a b
le-xor zero zero (suc zero) p q r = omega arith
le-xor (suc k) a b p q r = omega (
  arith,
  pow-suc 2 k,
  xor-half a b,
  le-xor k (a / 2) (b / 2) (omega (arith, pow-suc 2 k)) (omega (arith, pow-suc 2 k))
      (omega (arith, pow-suc 2 k)),
)
le-xor zero _ _ p q r = absurd (omega arith)

-- The low bits of a word, as a mask reads them.
and_3 : (a : ℕ) → bit_and a 3 ≡ a % 4
and_3 a = omega (arith, and_digit a 3, and_one (a / 2))

and_7 : (a : ℕ) → bit_and a 7 ≡ a % 8
and_7 a = omega (arith, and_digit a 7, and_3 (a / 2))

pub and_15 : (a : ℕ) → bit_and a 15 ≡ a % 16
and_15 a = omega (arith, and_digit a 15, and_7 (a / 2))

and_31 : (a : ℕ) → bit_and a 31 ≡ a % 32
and_31 a = omega (arith, and_digit a 31, and_15 (a / 2))

and_63 : (a : ℕ) → bit_and a 63 ≡ a % 64
and_63 a = omega (arith, and_digit a 63, and_31 (a / 2))

pub and_127 : (a : ℕ) → bit_and a 127 ≡ a % 128
and_127 a = omega (arith, and_digit a 127, and_63 (a / 2))

pub and_255 : (a : ℕ) → bit_and a 255 ≡ a % 256
and_255 a = omega (arith, and_digit a 255, and_127 (a / 2))

-- One bit of a byte.
and_2 : (a : ℕ) → bit_and a 2 ≡ a / 2 % 2 * 2
and_2 a = omega (arith, and_digit a 2, and_one (a / 2))

and_4 : (a : ℕ) → bit_and a 4 ≡ a / 4 % 2 * 4
and_4 a = omega (arith, and_digit a 4, and_2 (a / 2))

and_8 : (a : ℕ) → bit_and a 8 ≡ a / 8 % 2 * 8
and_8 a = omega (arith, and_digit a 8, and_4 (a / 2))

and_16 : (a : ℕ) → bit_and a 16 ≡ a / 16 % 2 * 16
and_16 a = omega (arith, and_digit a 16, and_8 (a / 2))

and_32 : (a : ℕ) → bit_and a 32 ≡ a / 32 % 2 * 32
and_32 a = omega (arith, and_digit a 32, and_16 (a / 2))

and_64 : (a : ℕ) → bit_and a 64 ≡ a / 64 % 2 * 64
and_64 a = omega (arith, and_digit a 64, and_32 (a / 2))

pub and_128 : (a : ℕ) → bit_and a 128 ≡ a / 128 % 2 * 128
and_128 a = omega (arith, and_digit a 128, and_64 (a / 2))
