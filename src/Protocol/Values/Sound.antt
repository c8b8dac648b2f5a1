-- ===== src/Protocol/Values/Sound.antt =====
-- What the values read from a payload of bytes are like.
use infinid.Bus.Crc.{IsByte, Bytes}
use infinid.Bus.Frame.{get_u16}
use infinid.Bus.Frame.Parse.{get_u16_lem}
use infinid.Prelude.Float.{Float64, pos, magnitude, signed16}
use infinid.Prelude.Run.{Run, ret, at, ◌>>=◌, Returns, returns, Returns-bind}
use infinid.Protocol.Values.{u16, f32, whole, sixteenths}
use infinid.Reading.{Reading}
use infinid.Prelude.{
  ℕ, zero, suc, ◌+◌, ◌≤◌, ◌<◌, ◌≡◌, Bool, true, false, if◌then◌else◌, ◌||◌, ltb, Bool-cases, inl,
  inr, List, [], ◌∷◌, length, drop, All, arith,
}

pub at-Returns : (p : List ℕ) (i : ℕ) → Bytes p → i < length p → Returns IsByte (at p i)
unfolding at
at-Returns [] i h lt = absurd (omega arith)
at-Returns (b ∷ p) zero h lt = returns b h.0
at-Returns (b ∷ p) (suc i) h lt = at-Returns p i h.1 (omega arith)

abbrev pub IsWord : ℕ → Type 0
IsWord w = w < 65536

pub u16-Returns : (p : List ℕ) (i : ℕ) → Bytes p → i + 1 < length p → Returns IsWord (u16 p i)
unfolding u16
u16-Returns p i h lt =
    Returns-bind IsByte IsWord (at p i) _ (at-Returns p i h (omega arith)) (λ hi b.
      Returns-bind IsByte IsWord (at p (i + 1)) _ (at-Returns p (i + 1) h lt)
        (λ lo c. returns (get_u16 hi lo) (omega (arith, get_u16_lem hi lo b c))))

pub drop-Bytes : (n : ℕ) (p : List ℕ) → Bytes p → Bytes (drop n p)
drop-Bytes zero p h = h
drop-Bytes (suc n) [] h = tt
drop-Bytes (suc n) (b ∷ p) h = drop-Bytes n p h.1

module _ {ℓ κ} {B : Type ℓ} (Q : B → Type κ) where
  pub byte_then :
      (p : List ℕ) (i : ℕ) (k : ℕ → Run B) (h : Bytes p) (lt : i < length p)
      (f : (b : ℕ) → IsByte b → Returns Q (k b))
      → Returns Q (at p i >>= k)
  byte_then p i k h lt f = Returns-bind IsByte Q (at p i) k (at-Returns p i h lt) f

  pub word_then :
      (p : List ℕ) (i : ℕ) (k : ℕ → Run B) (h : Bytes p) (lt : i + 1 < length p)
      (f : (w : ℕ) → IsWord w → Returns Q (k w))
      → Returns Q (u16 p i >>= k)
  word_then p i k h lt f = Returns-bind IsWord Q (u16 p i) k (u16-Returns p i h lt) f

module _ (F : Float64) where
  pub f32_then {ℓ κ} :
      {B : Type ℓ} (Q : B → Type κ) (p : List ℕ) (i : ℕ) (k : F.Carrier → Run B) (h : Bytes p)
      (lt : i + 3 < length p) (f : (v : F.Carrier) → Returns Q (k v))
      → Returns Q (f32 F p i >>= k)
  unfolding f32
  f32_then Q p i k h lt f =
      let P : F.Carrier → Type 0 = λ v. Unit in
      Returns-bind P Q (f32 F p i) k
        (byte_then P p i _ h (omega arith) (λ b0 _. byte_then P p (i + 1) _ h (omega arith) (λ b1 _.
          byte_then P p (i + 2) _ h (omega arith)
            (λ b2 _. byte_then P p (i + 3) _ h lt (λ b3 _. returns _ tt)))))
        (λ v _. f v)

  -- Neither NaN nor an infinity.
  abbrev pub IsFinite : F.Carrier → Type 0
  IsFinite v = (F.is_nan v || F.is_inf v) ≡ false

  -- A reading of the system or of one of the eight zones, whose value is a number.
  abbrev pub IsSound : Reading F.Carrier → Type 0
  IsSound r = (r.zone ≤ 8) × IsFinite r.value

  -- The readings that a decoder returns.
  abbrev pub Sounds : List (Reading F.Carrier) → Type 0
  Sounds = All (IsSound)

  pub whole-IsFinite : (n : ℕ) → n ≤ 16777216 → IsFinite (whole F n)
  whole-IsFinite n h = F.finite-of_int (pos n) (omega arith)

  pub divide-IsFinite :
      (v : F.Carrier) (d : ℕ)
      → 1 ≤ d
      → d ≤ 16777216
      → IsFinite v
      → IsFinite (F.divide v (whole F d))
  divide-IsFinite v d lo hi h = F.finite-divide v d lo (omega arith) h

  pub sixteenths-IsFinite : (n : ℕ) → IsWord n → IsFinite (sixteenths F (pos n))
  sixteenths-IsFinite n h =
      divide-IsFinite (whole F n) 16 (omega arith) (omega arith) (whole-IsFinite n (omega arith))

  signed16-small : (w : ℕ) → w < 65536 → magnitude (signed16 w) ≤ 16777216
  signed16-small w h = ground arith

  pub sixteenths_signed-IsFinite : (w : ℕ) → IsWord w → IsFinite (sixteenths F (signed16 w))
  sixteenths_signed-IsFinite w h =
      divide-IsFinite (F.of_int (signed16 w)) 16 (omega arith) (omega arith)
        (F.finite-of_int (signed16 w) (omega (arith, signed16-small w h)))

  -- What a reading of a byte or of a word is worth.
  pub byte-IsFinite : (b : ℕ) → IsByte b → IsFinite (whole F b)
  byte-IsFinite b h = whole-IsFinite b (omega arith)

  pub word-IsFinite : (w : ℕ) → IsWord w → IsFinite (whole F w)
  word-IsFinite w h = whole-IsFinite w (omega arith)

  pub flag-IsFinite : (b : Bool) → IsFinite (if b then whole F 1 else whole F 0)
  flag-IsFinite true = whole-IsFinite 1 (omega arith)
  flag-IsFinite false = whole-IsFinite 0 (omega arith)

  -- The guard that most decoders begin with.
  pub long_enough :
      (n : ℕ) (p : List ℕ) (r : Run (List (Reading F.Carrier)))
      (f : n ≤ length p → Returns Sounds r)
      → Returns Sounds (if ltb (length p) n then ret [] else r)
  long_enough n p r f = elim (Bool-cases (ltb (length p) n)) [
    | inl short ↦ rw short (returns [] tt)
    | inr long ↦ rw long (f (ground arith))
  ]
