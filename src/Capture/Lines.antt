-- ===== src/Capture/Lines.antt =====
-- capture/recorder.go: the line that `Add` writes for a record. A Go string is the list of its
-- bytes. encoding/json, the clock's text format and a scanner over lines are an interface.
use infinid.Capture.{Record}
use infinid.Prelude.Bytes.{hex}
use infinid.Prelude.{
  ℕ, ◌-◌, ◌/◌, ◌%◌, ◌^◌, ◌≤◌, ◌<◌, ◌≡◌, Bool, false, Option, none, some, List, [], ◌∷◌, ◌++◌,
  length, All,
}

pub record JsonRecord : Type 0 where
  pub ts : List ℕ
  pub src : List ℕ
  pub dst : List ℕ
  pub op : List ℕ
  pub payload : List ℕ
  pub raw : List ℕ

-- Printable ASCII.
abbrev pub IsPlain : List ℕ → Type 0
IsPlain s = All (λ b. (32 ≤ b) × (b < 127)) s

abbrev pub PlainRecord : JsonRecord → Type 0
PlainRecord r =
    IsPlain r.ts × IsPlain r.src × IsPlain r.dst × IsPlain r.op × IsPlain r.payload × IsPlain r.raw

-- The first instant of the year 10000.
abbrev pub year_10000 : ℕ
year_10000 = 315_537_897_600_000_000_000

-- The longest line that the scanner is sure to take.
abbrev pub line_limit : ℕ
line_limit = 2 ^ 20 - 1

pub record Text : Type 0 where
  -- `json.Marshal`, and `json.Unmarshal` into the same fields
  pub marshal : JsonRecord → List ℕ
  pub unmarshal : List ℕ → Option JsonRecord
  -- `t.UTC().Format(time.RFC3339Nano)`, and `time.Parse`
  pub format_time : ℕ → List ℕ
  pub parse_time : List ℕ → Option ℕ
  -- `strings.TrimSpace`
  pub trim_space : List ℕ → List ℕ
  -- the lines that a `bufio.Scanner` delivers
  pub lines : List ℕ → List (List ℕ)
  -- whether it then has an error, as for a line that is too long
  pub scan_fails : List ℕ → Bool
  pub unmarshal-marshal : (r : JsonRecord) → PlainRecord r → unmarshal (marshal r) ≡ some r
  -- An object stands between braces, on one line.
  pub marshal-braces :
      (r : JsonRecord)
      → PlainRecord r
      → (inner : List ℕ) × (marshal r ≡ b'{' ∷ inner ++ b'}' ∷ []) × IsPlain inner
  pub format_time-IsPlain : (t : ℕ) → IsPlain (format_time t)
  pub parse_time-format_time : (t : ℕ) → t < year_10000 → parse_time (format_time t) ≡ some t
  pub trim_space-braces :
      (inner : List ℕ) → trim_space (b'{' ∷ inner ++ b'}' ∷ []) ≡ b'{' ∷ inner ++ b'}' ∷ []
  pub lines-nil : (lines [] ≡ []) × (scan_fails [] ≡ false)
  -- A line feed ends a line, that no carriage return precedes.
  pub lines-cons :
      (inner rest : List ℕ)
      → IsPlain inner
      → length (b'{' ∷ inner ++ b'}' ∷ []) ≤ line_limit
      → (lines ((b'{' ∷ inner ++ b'}' ∷ []) ++ 10 ∷ rest)
          ≡ (b'{' ∷ inner ++ b'}' ∷ []) ∷ lines rest)
        × (scan_fails ((b'{' ∷ inner ++ b'}' ∷ []) ++ 10 ∷ rest) ≡ scan_fails rest)

-- `fmt.Sprintf("%04x", n)` and `fmt.Sprintf("%02x", n)`, of a uint16 and of a uint8.
abbrev pub hex16 : ℕ → List ℕ
hex16 n = hex (n / 256 ∷ n % 256 ∷ [])

abbrev pub hex8 : ℕ → List ℕ
hex8 n = hex (n ∷ [])

module _ (t : Text) where
  unfoldable pub json_record : Record → JsonRecord
  json_record rec = record {
    ts = t.format_time rec.ts;
    src = hex16 rec.src;
    dst = hex16 rec.dst;
    op = hex8 rec.op;
    payload = hex rec.payload;
    raw = hex rec.raw;
  }

  -- What a writer holds after a record; `none` is no writer.
  unfoldable pub write_line : Record → Option (List ℕ) → Option (List ℕ)
  unfolding json_record
  write_line rec none = none
  write_line rec (some w) = some (w ++ (t.marshal (json_record rec) ++ 10 ∷ []))

  unfoldable pub write_lines : List Record → Option (List ℕ) → Option (List ℕ)
  unfolding write_line
  write_lines [] w = w
  write_lines (rec ∷ recs) w = write_lines recs (write_line rec w)
