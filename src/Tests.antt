-- ===== src/Tests.antt =====
-- float64, by the terms that build its values: what the tests compute with.
mod Protocol
mod State
mod Capture
mod Journal
mod Text
mod Inspect
mod Mqtt
mod Daemon
mod PublishLoop
use infinid.Prelude.Float.{Float64, ℤ, pos, negsuc, magnitude, is_nan32, is_inf32}
use infinid.Prelude.{ℕ, ◌≡◌, ◌≤◌, ◌^◌, ◌↔◌, refl, Bool, true, false, ◌||◌, ◌==◌, ==_iff, arith}

pub data Value : Type 0 where
  int : ℤ → Value
  quotient : Value → Value → Value
  bits : ℕ → Value

abbrev pub nan : Value → Bool
nan (int n) = false
nan (quotient v w) = nan v
nan (bits w) = is_nan32 w

abbrev pub inf : Value → Bool
inf (int n) = false
inf (quotient v w) = inf v
inf (bits w) = is_inf32 w

abbrev pub same : Value → Value → Bool
same (int (pos m)) (int (pos n)) = m == n
same _ _ = false

pub same_comm : (v w : Value) → same v w ≡ same w v
same_comm (int (pos m)) (int (pos n)) = ground arith
same_comm (int (pos m)) (int (negsuc n)) = refl
same_comm (int (pos m)) (quotient v w) = refl
same_comm (int (pos m)) (bits w) = refl
same_comm (int (negsuc m)) (int (pos n)) = refl
same_comm (int (negsuc m)) (int (negsuc n)) = refl
same_comm (int (negsuc m)) (quotient v w) = refl
same_comm (int (negsuc m)) (bits w) = refl
same_comm (quotient a b) (int (pos n)) = refl
same_comm (quotient a b) (int (negsuc n)) = refl
same_comm (quotient a b) (quotient v w) = refl
same_comm (quotient a b) (bits w) = refl
same_comm (bits a) (int (pos n)) = refl
same_comm (bits a) (int (negsuc n)) = refl
same_comm (bits a) (quotient v w) = refl
same_comm (bits a) (bits w) = refl

abbrev pub word : Value → ℕ
word (int (pos n)) = n
word _ = 0

abbrev pub terms : Float64
terms = record {
  Carrier = Value;
  of_int = int;
  divide = quotient;
  of_bits32 = bits;
  is_nan = nan;
  is_inf = inf;
  equal = same;
  to_word = word;
  is_nan-of_bits32 = λ w. refl;
  is_inf-of_bits32 = λ w. refl;
  to_word-of_int = λ n h. refl;
  equal-of_int = λ m n h k. ==_iff m n;
  finite-of_int = λ n h. refl;
  finite-divide = λ v d lo hi h. h;
  equal_comm = same_comm;
}
