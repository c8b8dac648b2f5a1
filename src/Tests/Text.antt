-- ===== src/Tests/Text.antt =====
-- A text format for captures: each byte of a field after a mark, and each field ended by another.
use infinid.Capture.Lines.{JsonRecord, IsPlain, PlainRecord, Text}
use infinid.Prelude.{
  ℕ, zero, suc, ◌≤◌, ◌<◌, ◌≡◌, refl, sym, ap, ◌∙◌, false, Option, none, some, List, [], ◌∷◌, ◌++◌,
  append_assoc, append-nil, ◌==◌, if◌then◌else◌, length, All-append, arith,
}

abbrev pub enc : List ℕ → List ℕ
enc [] = b';' ∷ []
enc (c ∷ cs) = b'x' ∷ c ∷ enc cs

abbrev pub put : ℕ → Option (List ℕ × List ℕ) → Option (List ℕ × List ℕ)
put c none = none
put c (some (f, rest)) = some (c ∷ f, rest)

unfoldable pub dec : List ℕ → Option (List ℕ × List ℕ)
dec [] = none
dec (m ∷ []) = some ([], [])
dec (m ∷ c ∷ cs) = let later = dec cs in if m == b';' then some ([], c ∷ cs) else put c later

dec-enc : (f rest : List ℕ) → dec (enc f ++ rest) ≡ some (f, rest)
unfolding dec
dec-enc [] [] = refl
dec-enc [] (c ∷ cs) = refl
dec-enc (c ∷ f) rest = ap (put c) (dec-enc f rest)

enc-IsPlain : (f : List ℕ) → IsPlain f → IsPlain (enc f)
enc-IsPlain [] h = ((omega arith, omega arith), tt)
enc-IsPlain (c ∷ f) h = ((omega arith, omega arith), (h.0, enc-IsPlain f h.1))

abbrev pub body : JsonRecord → List ℕ
body r = enc r.ts ++ (enc r.src ++ (enc r.dst ++ (enc r.op ++ (enc r.payload ++ enc r.raw))))

abbrev pub next : {A : Type 0} → Option (List ℕ × List ℕ) → (List ℕ → List ℕ → Option A) → Option A
next none f = none
next (some (field, rest)) f = f field rest

abbrev pub fields : List ℕ → Option JsonRecord
fields s = next (dec s) λ ts s1. next (dec s1) λ src s2. next (dec s2) λ dst s3.
    next (dec s3) λ op s4. next (dec s4) λ payload s5. next (dec s5) λ raw s6.
      some (record { ts = ts; src = src; dst = dst; op = op; payload = payload; raw = raw })

abbrev pub unmarshal : List ℕ → Option JsonRecord
unmarshal [] = none
unmarshal (c ∷ s) = fields s

pub fields-body : (r : JsonRecord) (rest : List ℕ) → fields (body r ++ rest) ≡ some r
fields-body r rest =
    ap fields (
      append_assoc (enc r.ts) _ rest
      ∙ ap (λ s. enc r.ts ++ s)
          (append_assoc (enc r.src) _ rest
            ∙ ap (λ s. enc r.src ++ s)
                (append_assoc (enc r.dst) _ rest
                  ∙ ap (λ s. enc r.dst ++ s)
                      (append_assoc (enc r.op) _ rest
                        ∙ ap (λ s. enc r.op ++ s)
                            (append_assoc (enc r.payload) (enc r.raw) rest)))))
    ∙ rw (dec-enc r.ts) (
        rw (dec-enc r.src) (
          rw (dec-enc r.dst)
            (rw (dec-enc r.op) (rw (dec-enc r.payload) (rw (dec-enc r.raw) refl)))))

pub body-IsPlain : (r : JsonRecord) → PlainRecord r → IsPlain (body r)
body-IsPlain r (ts, src, dst, op, payload, raw) =
    let join = All-append (λ b. (32 ≤ b) × (b < 127)) in
    join (enc r.ts) _ (enc-IsPlain r.ts ts) (
      join (enc r.src) _ (enc-IsPlain r.src src) (
        join (enc r.dst) _ (enc-IsPlain r.dst dst) (
          join (enc r.op) _ (enc-IsPlain r.op op)
            (join (enc r.payload) _ (enc-IsPlain r.payload payload) (enc-IsPlain r.raw raw)))))

-- A time, in tallies.
abbrev pub tallies : ℕ → List ℕ
tallies zero = []
tallies (suc t) = b'x' ∷ tallies t

pub tallies-IsPlain : (t : ℕ) → IsPlain (tallies t)
tallies-IsPlain zero = tt
tallies-IsPlain (suc t) = ((omega arith, omega arith), tallies-IsPlain t)

pub length-tallies : (t : ℕ) → length (tallies t) ≡ t
length-tallies zero = refl
length-tallies (suc t) = ap suc (length-tallies t)

unfoldable pub lines_from : List ℕ → List ℕ → List (List ℕ)
lines_from [] [] = []
lines_from (b ∷ part) [] = (b ∷ part) ∷ []
lines_from part (c ∷ s) =
    let ended = lines_from [] s in
    let more = lines_from (part ++ c ∷ []) s in if c == 10 then part ∷ ended else more

lines_from-cons :
    (part : List ℕ) (c : ℕ) (s : List ℕ)
    → lines_from part (c ∷ s)
      ≡ (if c == 10 then part ∷ lines_from [] s else lines_from (part ++ c ∷ []) s)
unfolding lines_from
lines_from-cons [] c s = refl
lines_from-cons (b ∷ part) c s = refl

pub lines_from-append :
    (line part rest : List ℕ)
    → IsPlain line
    → lines_from part (line ++ 10 ∷ rest) ≡ (part ++ line) ∷ lines_from [] rest
lines_from-append [] part rest h =
    lines_from-cons part 10 rest ∙ ap (λ l. l ∷ lines_from [] rest) (sym (append-nil part))
lines_from-append (c ∷ line) part rest h =
    lines_from-cons part c (line ++ 10 ∷ rest)
    ∙ ap
        (λ b.
          if b
          then part ∷ lines_from [] (line ++ 10 ∷ rest)
          else lines_from (part ++ c ∷ []) (line ++ 10 ∷ rest))
        (not_feed c h.0.0)
    ∙ lines_from-append line (part ++ c ∷ []) rest h.1
    ∙ ap (λ l. l ∷ lines_from [] rest) (append_assoc part (c ∷ []) line)
  where
    not_feed : (c : ℕ) → 32 ≤ c → (c == 10) ≡ false
    not_feed c h = ground arith

pub nothing_left : lines_from [] [] ≡ []
unfolding lines_from
nothing_left = refl

pub braced-IsPlain : (inner : List ℕ) → IsPlain inner → IsPlain (b'{' ∷ inner ++ b'}' ∷ [])
braced-IsPlain inner h = (
  (omega arith, omega arith),
  All-append (λ b. (32 ≤ b) × (b < 127)) inner (b'}' ∷ []) h ((omega arith, omega arith), tt),
)

abbrev pub marked_text : Text
marked_text = record {
  marshal = λ r. b'{' ∷ body r ++ b'}' ∷ [];
  unmarshal = unmarshal;
  format_time = tallies;
  parse_time = λ s. some (length s);
  trim_space = λ s. s;
  lines = lines_from [];
  unmarshal-marshal = λ r plain. fields-body r (b'}' ∷ []);
  marshal-braces = λ r plain. (body r, refl, body-IsPlain r plain);
  format_time-IsPlain = tallies-IsPlain;
  parse_time-format_time = λ t h. ap some (length-tallies t);
  trim_space-braces = λ inner. refl;
  scan_fails = λ s. false;
  lines-nil = (nothing_left, refl);
  lines-cons = λ inner rest plain fits.
      (lines_from-append (b'{' ∷ inner ++ b'}' ∷ []) [] rest (braced-IsPlain inner plain), refl);
}
