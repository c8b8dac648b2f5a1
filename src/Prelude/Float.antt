-- ===== src/Prelude/Float.antt =====
-- Signed integers, and float64 as an interface: the program computes with what the language gives.
use infinid.Prelude.{
  ℕ, suc, ◌-◌, ◌/◌, ◌%◌, ◌^◌, ◌≤◌, ◌≡◌, ◌↔◌, Bool, true, false, not, ◌&&◌, ◌||◌, ltb, ◌==◌,
  if◌then◌else◌,
}

-- `negsuc n` is -(n + 1).
pub data ℤ : Type 0 where
  pos : ℕ → ℤ
  negsuc : ℕ → ℤ

abbrev pub magnitude : ℤ → ℕ
magnitude (pos n) = n
magnitude (negsuc n) = suc n

-- int16(w) and int8(w), of a word's bit pattern.
abbrev pub signed16 : ℕ → ℤ
signed16 w = if ltb w 32768 then pos w else negsuc (65536 - w - 1)

abbrev pub signed8 : ℕ → ℤ
signed8 w = if ltb w 128 then pos w else negsuc (256 - w - 1)

-- The fields of a float32: an exponent of all ones is no number, an infinity if the rest is 0.
abbrev pub exponent32 : ℕ → ℕ
exponent32 w = w / 8388608 % 256

abbrev pub fraction32 : ℕ → ℕ
fraction32 w = w % 8388608

abbrev pub is_nan32 : ℕ → Bool
is_nan32 w = exponent32 w == 255 && not (fraction32 w == 0)

abbrev pub is_inf32 : ℕ → Bool
is_inf32 w = exponent32 w == 255 && fraction32 w == 0

-- float64: what the program uses of it, with what IEEE 754 and the Go specification say of that.
pub record Float64 : Type 1 where
  pub Carrier : Type 0
  -- `float64(n)`, of an integer
  pub of_int : ℤ → Carrier
  -- `v / w`
  pub divide : Carrier → Carrier → Carrier
  -- `float64(math.Float32frombits(w))`
  pub of_bits32 : ℕ → Carrier
  pub is_nan : Carrier → Bool
  -- `math.IsInf(v, 0)`
  pub is_inf : Carrier → Bool
  -- `v == w`
  pub equal : Carrier → Carrier → Bool
  -- `int(v)`, as the 64-bit word of its bit pattern
  pub to_word : Carrier → ℕ
  pub is_nan-of_bits32 : (w : ℕ) → is_nan (of_bits32 w) ≡ is_nan32 w
  pub is_inf-of_bits32 : (w : ℕ) → is_inf (of_bits32 w) ≡ is_inf32 w
  -- Integers of up to 53 bits are exact.
  pub to_word-of_int : (n : ℕ) → n ≤ 2 ^ 53 → to_word (of_int (pos n)) ≡ n
  pub equal-of_int :
      (m n : ℕ)
      → m ≤ 2 ^ 53
      → n ≤ 2 ^ 53
      → (equal (of_int (pos m)) (of_int (pos n)) ≡ true) ↔ (m ≡ n)
  pub finite-of_int :
      (n : ℤ) → magnitude n ≤ 2 ^ 53 → (is_nan (of_int n) || is_inf (of_int n)) ≡ false
  -- A quotient by an integer of 1 or more is no larger than what is divided.
  pub finite-divide :
      (v : Carrier) (d : ℕ)
      → 1 ≤ d
      → d ≤ 2 ^ 53
      → (is_nan v || is_inf v) ≡ false
      → (is_nan (divide v (of_int (pos d))) || is_inf (divide v (of_int (pos d)))) ≡ false
  -- `==` does not depend on the order of its operands.
  pub equal_comm : (v w : Carrier) → equal v w ≡ equal w v
