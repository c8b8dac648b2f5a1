-- ===== src/Inspect/Parse/Digits.antt =====
-- Hexadecimal digits read back.
use infinid.Bus.Crc.{Bytes}
use infinid.Capture.Lines.{IsPlain, hex16, hex8}
use infinid.Inspect.Parse.{hex_value, parse_digits, parse_hex16, parse_hex8, decode_hex}
use infinid.Prelude.Bytes.{hex_digit, hex}
use infinid.Prelude.{
  ℕ, ◌+◌, ◌*◌, ◌/◌, ◌%◌, ◌^◌, ◌<◌, ◌≡◌, refl, ap, ◌∙◌, true, some, List, [], ◌∷◌, ltb, arith,
}

hex_value-hex_digit : (d : ℕ) → d < 16 → hex_value (hex_digit d) ≡ some d
unfolding hex_value
hex_value-hex_digit d h = ground arith

pub hex-IsPlain : (bs : List ℕ) → Bytes bs → IsPlain (hex bs)
hex-IsPlain [] h = tt
hex-IsPlain (b ∷ bs) h = (ground arith, (ground arith, hex-IsPlain bs h.1))

pub decode_hex-hex : (bs : List ℕ) → Bytes bs → decode_hex (hex bs) ≡ some bs
unfolding decode_hex
decode_hex-hex [] h = refl
decode_hex-hex (b ∷ bs) h =
    let byte : b / 16 * 16 + b % 16 ≡ b = omega arith in
    rw (hex_value-hex_digit (b / 16) (omega (arith, h.0))) (
      rw (hex_value-hex_digit (b % 16) (omega arith))
        (rw (decode_hex-hex bs h.1) (ap (λ c. some (c ∷ bs)) byte)))

parse_digits-cons :
    (w n d : ℕ) (cs : List ℕ)
    → d < 16
    → n * 16 + d < 2 ^ w
    → parse_digits w n (hex_digit d ∷ cs) ≡ parse_digits w (n * 16 + d) cs
unfolding parse_digits
parse_digits-cons w n d cs h fits =
    let test : ltb (n * 16 + d) (2 ^ w) ≡ true = ground arith in
    rw (hex_value-hex_digit d h) (rw test refl)

parse_digits-nil : (w n : ℕ) → parse_digits w n [] ≡ some n
unfolding parse_digits
parse_digits-nil w n = refl

pub parse_hex8-hex8 : (n : ℕ) → n < 256 → parse_hex8 (hex8 n) ≡ some n
unfolding parse_hex8
parse_hex8-hex8 n h =
    parse_digits-cons 8 0 (n / 16) (hex_digit (n % 16) ∷ []) (omega arith) (omega arith)
    ∙ parse_digits-cons 8 (0 * 16 + n / 16) (n % 16) [] (omega arith) (omega arith)
    ∙ parse_digits-nil 8 ((0 * 16 + n / 16) * 16 + n % 16)
    ∙ ap some (omega arith)

pub parse_hex16-hex16 : (n : ℕ) → n < 65536 → parse_hex16 (hex16 n) ≡ some n
unfolding parse_hex16
parse_hex16-hex16 n h =
    let a = n / 256 / 16 in
    let b = n / 256 % 16 in
    let c = n % 256 / 16 in
    let d = n % 256 % 16 in
    parse_digits-cons 16 0 a (hex_digit b ∷ hex_digit c ∷ hex_digit d ∷ []) (omega arith)
      (omega arith)
    ∙ parse_digits-cons 16 (0 * 16 + a) b (hex_digit c ∷ hex_digit d ∷ []) (omega arith)
        (omega arith)
    ∙ parse_digits-cons 16 ((0 * 16 + a) * 16 + b) c (hex_digit d ∷ []) (omega arith) (omega arith)
    ∙ parse_digits-cons 16 (((0 * 16 + a) * 16 + b) * 16 + c) d [] (omega arith) (omega arith)
    ∙ parse_digits-nil 16 ((((0 * 16 + a) * 16 + b) * 16 + c) * 16 + d)
    ∙ ap some (omega arith)
