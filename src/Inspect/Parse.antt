-- ===== src/Inspect/Parse.antt =====
-- inspect/inspect.go, `ParseAll`: records out of a capture's lines. The lines and whether an
-- error ends them come from the scanner; an error leaves what was parsed before it.
pub mod Digits
pub mod Captured
use infinid.Capture.Lines.{JsonRecord, Text}
use infinid.Inspect.{Rec}
use infinid.Prelude.{
  ℕ, zero, suc, ◌+◌, ◌-◌, ◌*◌, ◌^◌, Bool, true, false, ◌&&◌, Option, none, some, List, [], ◌∷◌,
  ◌++◌, ltb, leb, ◌==◌, if◌then◌else◌, length,
}

infixl 5 ◌>>=◌
abbrev pub ◌>>=◌ : {A B : Type 0} → Option A → (A → Option B) → Option B
none >>= f = none
some a >>= f = f a

unfoldable pub hex_value : ℕ → Option ℕ
hex_value c =
    if leb b'0' c && leb c b'9'
    then some (c - b'0')
    else if leb b'a' c && leb c b'f'
    then some (c - b'a' + 10)
    else if leb b'A' c && leb c b'F'
    then some (c - b'A' + 10)
    else none

-- The digits of `strconv.ParseUint(s, 16, w)`: an error if the value has more than `w` bits.
unfoldable pub parse_digits : ℕ → ℕ → List ℕ → Option ℕ
unfolding hex_value
parse_digits w n [] = some n
parse_digits w n (c ∷ cs) = do
  d ← hex_value c
  if ltb (n * 16 + d) (2 ^ w) then parse_digits w (n * 16 + d) cs else none

unfoldable pub parse_hex16 : List ℕ → Option ℕ
unfolding parse_digits
parse_hex16 s = if length s == 0 then none else parse_digits 16 0 s

unfoldable pub parse_hex8 : List ℕ → Option ℕ
unfolding parse_digits
parse_hex8 s = if length s == 0 then none else parse_digits 8 0 s

-- `hex.DecodeString`
unfoldable pub decode_hex : List ℕ → Option (List ℕ)
unfolding hex_value
decode_hex [] = some []
decode_hex (c ∷ []) = none
decode_hex (c ∷ d ∷ cs) = do
  hi ← hex_value c
  lo ← hex_value d
  rest ← decode_hex cs
  some ((hi * 16 + lo) ∷ rest)

module _ (t : Text) where
  unfoldable pub parse_fields : JsonRecord → Option Rec
  unfolding parse_hex16 parse_hex8 decode_hex
  parse_fields jr = do
    ts ← t.parse_time jr.ts
    src ← parse_hex16 jr.src
    dst ← parse_hex16 jr.dst
    op ← parse_hex8 jr.op
    payload ← decode_hex jr.payload
    raw ← decode_hex jr.raw
    some (record { ts = ts; src = src; dst = dst; op = op; payload = payload; raw = raw })

  unfoldable pub parse_line : List ℕ → Option Rec
  unfolding parse_fields
  parse_line line = do jr ← t.unmarshal line; parse_fields jr

  -- The records so far and the lines skipped, after one more line.
  abbrev pub note_line : Option Rec → List Rec × ℕ → List Rec × ℕ
  note_line none (recs, skipped) = (recs, skipped + 1)
  note_line (some rec) (recs, skipped) = (recs ++ rec ∷ [], skipped)

  unfoldable pub parse_loop : List (List ℕ) → List Rec × ℕ → List Rec × ℕ
  unfolding parse_line
  parse_loop [] out = out
  parse_loop (l ∷ ls) out =
      let line = t.trim_space l in
      parse_loop ls (if length line == 0 then out else note_line (parse_line line) out)

  -- The records, the lines skipped, and whether there is an error.
  unfoldable pub parse_all : List ℕ → (List Rec × ℕ) × Bool
  unfolding parse_loop
  parse_all file = (parse_loop (t.lines file) ([], 0), t.scan_fails file)
