-- ===== src/Inspect/Parse/Captured.antt =====
-- A capture read back.
use mathlib.Core.Path.{subst}
use infinid.Bus.Crc.{IsByte, Bytes}
use infinid.Capture.{Record}
use infinid.Capture.Lines.{
  PlainRecord, year_10000, line_limit, Text, json_record, write_line, write_lines,
}
use infinid.Inspect.{Rec}
use infinid.Inspect.Parse.Digits.{hex-IsPlain, decode_hex-hex, parse_hex8-hex8, parse_hex16-hex16}
use infinid.Inspect.Parse.{parse_fields, parse_line, note_line, parse_loop, parse_all}
use infinid.Prelude.{
  ℕ, ◌/◌, ◌%◌, ◌≤◌, ◌<◌, ◌≡◌, refl, sym, ap, ◌∙◌, false, some, List, [], ◌∷◌, ◌++◌, append_assoc,
  append-nil, ◌==◌, if◌then◌else◌, length, All, arith,
}

-- A record of a frame, at a time with a four-digit year.
pub record IsCapture (rec : Record) : Type 0 where
  pub dated : rec.ts < year_10000
  pub from_word : rec.src < 65536
  pub to_word : rec.dst < 65536
  pub op_byte : IsByte rec.op
  pub payload_bytes : Bytes rec.payload
  pub raw_bytes : Bytes rec.raw

-- The record that the inspection has of it.
abbrev pub inspected : Record → Rec
inspected rec = record {
  ts = rec.ts;
  src = rec.src;
  dst = rec.dst;
  op = rec.op;
  payload = rec.payload;
  raw = rec.raw;
}

abbrev pub inspected_all : List Record → List Rec
inspected_all [] = []
inspected_all (rec ∷ recs) = inspected rec ∷ inspected_all recs

module _ (t : Text) where
  json_record-PlainRecord : (rec : Record) → IsCapture rec → PlainRecord (json_record t rec)
  unfolding json_record
  json_record-PlainRecord rec c = (
    t.format_time-IsPlain rec.ts,
    hex-IsPlain (rec.src / 256 ∷ rec.src % 256 ∷ [])
        (omega (arith, c.from_word), (omega arith, tt)),
    hex-IsPlain (rec.dst / 256 ∷ rec.dst % 256 ∷ []) (omega (arith, c.to_word), (omega arith, tt)),
    hex-IsPlain (rec.op ∷ []) (c.op_byte, tt),
    hex-IsPlain rec.payload c.payload_bytes,
    hex-IsPlain rec.raw c.raw_bytes,
  )

  parse_fields-json_record :
      (rec : Record) → IsCapture rec → parse_fields t (json_record t rec) ≡ some (inspected rec)
  unfolding parse_fields json_record
  parse_fields-json_record rec c = rw (t.parse_time-format_time rec.ts c.dated) (
      rw (parse_hex16-hex16 rec.src c.from_word) (
        rw (parse_hex16-hex16 rec.dst c.to_word) (
          rw (parse_hex8-hex8 rec.op c.op_byte) (
            rw (decode_hex-hex rec.payload c.payload_bytes)
              (rw (decode_hex-hex rec.raw c.raw_bytes) refl)))))

  abbrev line_of : Record → List ℕ
  line_of rec = t.marshal (json_record t rec)

  -- What is written for some records.
  abbrev text_of : List Record → List ℕ
  text_of [] = []
  text_of (rec ∷ recs) = line_of rec ++ (10 ∷ text_of recs)

  write_lines-text_of :
      (recs : List Record) (w : List ℕ) → write_lines t recs (some w) ≡ some (w ++ text_of recs)
  unfolding write_lines write_line
  write_lines-text_of [] w = ap some (sym (append-nil w))
  write_lines-text_of (rec ∷ recs) w =
      write_lines-text_of recs (w ++ (line_of rec ++ 10 ∷ []))
      ∙ ap some (
          append_assoc w (line_of rec ++ 10 ∷ []) (text_of recs)
          ∙ ap (λ rest. w ++ rest) (append_assoc (line_of rec) (10 ∷ []) (text_of recs)))

  parse_line-line_of :
      (rec : Record) → IsCapture rec → parse_line t (line_of rec) ≡ some (inspected rec)
  unfolding parse_line
  parse_line-line_of rec c =
      rw (t.unmarshal-marshal (json_record t rec) (json_record-PlainRecord rec c))
        (parse_fields-json_record rec c)

  -- A line that was written is read as one line, which trimming leaves as it is.
  module _ (rec : Record) (c : IsCapture rec) (fits : length (line_of rec) ≤ line_limit) where
    lines-line_of :
        (rest : List ℕ) → t.lines (line_of rec ++ 10 ∷ rest) ≡ line_of rec ∷ t.lines rest
    lines-line_of rest =
        let (inner, shape, plain) =
          t.marshal-braces (json_record t rec) (json_record-PlainRecord rec c) in
        subst (λ l. t.lines (l ++ 10 ∷ rest) ≡ l ∷ t.lines rest) (sym shape)
          (t.lines-cons inner rest plain (subst (λ l. length l ≤ line_limit) shape fits)).0

    scan_fails-line_of :
        (rest : List ℕ) → t.scan_fails (line_of rec ++ 10 ∷ rest) ≡ t.scan_fails rest
    scan_fails-line_of rest =
        let (inner, shape, plain) =
          t.marshal-braces (json_record t rec) (json_record-PlainRecord rec c) in
        subst (λ l. t.scan_fails (l ++ 10 ∷ rest) ≡ t.scan_fails rest) (sym shape)
          (t.lines-cons inner rest plain (subst (λ l. length l ≤ line_limit) shape fits)).1

    trim_space-line_of : t.trim_space (line_of rec) ≡ line_of rec
    trim_space-line_of =
        let (inner, shape, plain) =
          t.marshal-braces (json_record t rec) (json_record-PlainRecord rec c) in
        subst (λ l. t.trim_space l ≡ l) (sym shape) (t.trim_space-braces inner)

    line_of-filled : (length (line_of rec) == 0) ≡ false
    line_of-filled =
        let (inner, shape, plain) =
          t.marshal-braces (json_record t rec) (json_record-PlainRecord rec c) in
        subst (λ l. (length l == 0) ≡ false) (sym shape) (ground arith)

    parse_loop-line_of :
        (seen : List Rec) (n : ℕ) (ls : List (List ℕ))
        → parse_loop t (line_of rec ∷ ls) (seen, n)
          ≡ parse_loop t ls (seen ++ inspected rec ∷ [], n)
    unfolding parse_loop
    parse_loop-line_of seen n ls =
        let note = λ (l : List ℕ).
          parse_loop t ls
            (if length l == 0 then (seen, n) else note_line t (parse_line t l) (seen, n)) in
        ap note trim_space-line_of
        ∙ ap
            (λ b.
              parse_loop t ls
                (if b then (seen, n) else note_line t (parse_line t (line_of rec)) (seen, n)))
            line_of-filled
        ∙ ap (λ o. parse_loop t ls (note_line t o (seen, n))) (parse_line-line_of rec c)

  parse_loop-text_of :
      (recs : List Record) (seen : List Rec) (n : ℕ)
      → All IsCapture recs
      → All (λ rec. length (line_of rec) ≤ line_limit) recs
      → parse_loop t (t.lines (text_of recs)) (seen, n) ≡ (seen ++ inspected_all recs, n)
  unfolding parse_loop
  parse_loop-text_of [] seen n all short =
      ap (λ ls. parse_loop t ls (seen, n)) t.lines-nil.0
      ∙ ap (λ out. (out, n)) (sym (append-nil seen))
  parse_loop-text_of (rec ∷ recs) seen n all short =
      ap (λ ls. parse_loop t ls (seen, n)) (lines-line_of rec all.0 short.0 (text_of recs))
      ∙ parse_loop-line_of rec all.0 short.0 seen n (t.lines (text_of recs))
      ∙ parse_loop-text_of recs (seen ++ inspected rec ∷ []) n all.1 short.1
      ∙ ap (λ out. (out, n)) (append_assoc seen (inspected rec ∷ []) (inspected_all recs))

  scan_fails-text_of :
      (recs : List Record)
      → All IsCapture recs
      → All (λ rec. length (line_of rec) ≤ line_limit) recs
      → t.scan_fails (text_of recs) ≡ false
  scan_fails-text_of [] all short = t.lines-nil.1
  scan_fails-text_of (rec ∷ recs) all short =
      scan_fails-line_of rec all.0 short.0 (text_of recs) ∙ scan_fails-text_of recs all.1 short.1

  -- A file of the lines that the recorder writes for records of frames, at times with a four-digit
  -- year, is read as just these records, in order, with no line skipped and no error, when no
  -- line is longer than the scanner takes.
  pub parse_all-write_lines :
      (recs : List Record) (file : List ℕ)
      → All IsCapture recs
      → All (λ rec. length (t.marshal (json_record t rec)) ≤ line_limit) recs
      → write_lines t recs (some []) ≡ some file
      → parse_all t file ≡ ((inspected_all recs, 0), false)
  unfolding parse_all
  parse_all-write_lines recs file all short written =
      let is : text_of recs ≡ file = cc (write_lines-text_of recs []) in
      subst (λ f. parse_all t f ≡ ((inspected_all recs, 0), false)) is
        (rw (parse_loop-text_of recs [] 0 all short) (rw (scan_fails-text_of recs all short) refl))
