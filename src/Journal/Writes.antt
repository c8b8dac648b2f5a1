-- ===== src/Journal/Writes.antt =====
-- state/journal.go: how `append` writes a line to the journal's file, and what `Err` and `Close`
-- report. The bufio.Writer is empty between appends, hands a line to the file in one write, and
-- keeps the first error of the file, which it answers every later write with.
use infinid.Prelude.{
  ℕ, ◌≡◌, refl, sym, ap, ◌∙◌, Option, none, some, List, [], ◌∷◌, ◌++◌, append_assoc, append-nil,
  take,
}

-- What the file does with a write: all of it, or some bytes and an error.
pub data Wrote (E : Type 0) : Type 0 where
  whole : Wrote E
  cut : ℕ → E → Wrote E

-- `stuck` is the writer's error, `err` the journal's.
pub record Log (E : Type 0) : Type 0 where
  pub file : List ℕ
  pub stuck : Option E
  pub err : Option E

module _ {E : Type 0} where
  -- `if j.err == nil { j.err = err }`
  abbrev pub first : Option E → E → Option E
  first none e = some e
  first (some d) e = some d

  abbrev pub put : List ℕ → Wrote E → Log E → Log E
  put line whole l = record l { file = l.file ++ line }
  put line (cut n e) l = record l {
    file = l.file ++ take n line;
    stuck = some e;
    err = first l.err e;
  }

  abbrev pub append_to : List ℕ → Wrote E → Log E → Option E → Log E
  append_to line w l none = put line w l
  append_to line w l (some e) = record l { err = first l.err e }

  -- `append`, of a line with its line feed.
  unfoldable pub append : List ℕ → Wrote E → Log E → Log E
  append line w l = append_to line w l l.stuck

  unfoldable pub appends : List (List ℕ × Wrote E) → Log E → Log E
  unfolding append
  appends [] l = l
  appends ((line, w) ∷ ws) l = appends ws (append line w l)

  -- The flush of `Close` has nothing to write, and answers with the writer's error.
  abbrev pub flushed : Option E → Option E → Option E
  flushed none err = err
  flushed (some e) err = first err e

  abbrev pub or_close : Option E → Option E → Option E
  or_close none closed = closed
  or_close (some e) closed = some e

  -- The error that `Close` returns, `closed` being that of closing the file.
  unfoldable pub close : Option E → Log E → Option E
  close closed l = or_close (flushed l.stuck l.err) closed

  -- The bytes that arrive, and the first error of the file.
  abbrev pub arrived : List (List ℕ × Wrote E) → List ℕ
  arrived [] = []
  arrived ((line, whole) ∷ ws) = line ++ arrived ws
  arrived ((line, cut n e) ∷ ws) = take n line

  abbrev pub first_error : List (List ℕ × Wrote E) → Option E
  first_error [] = none
  first_error ((line, whole) ∷ ws) = first_error ws
  first_error ((line, cut n e) ∷ ws) = some e

  abbrev pub opened : List ℕ → Log E
  opened existing = record { file = existing; stuck = none; err = none }

  abbrev broken : List ℕ → E → Log E
  broken file e = record { file = file; stuck = some e; err = some e }

  appends-broken :
      (ws : List (List ℕ × Wrote E)) (file : List ℕ) (e : E)
      → appends ws (broken file e) ≡ broken file e
  unfolding appends
  appends-broken [] file e = refl
  appends-broken ((line, w) ∷ ws) file e = appends-broken ws file e

  -- The log of a file after appends.
  abbrev pub left : List ℕ → List (List ℕ × Wrote E) → Log E
  left existing ws = record {
    file = existing ++ arrived ws;
    stuck = first_error ws;
    err = first_error ws;
  }

  appends-left :
      (ws : List (List ℕ × Wrote E)) (existing : List ℕ)
      → appends ws (opened existing) ≡ left existing ws
  unfolding appends
  appends-left [] existing = ap opened (sym (append-nil existing))
  appends-left ((line, whole) ∷ ws) existing =
      appends-left ws (existing ++ line)
      ∙ ap (λ file. record (left existing ws) { file = file })
          (append_assoc existing line (arrived ws))
  appends-left ((line, cut n e) ∷ ws) existing = appends-broken ws (existing ++ take n line) e

  close-left :
      (closed : Option E) (o : Option E) → or_close (flushed o o) closed ≡ or_close o closed
  close-left closed none = refl
  close-left closed (some e) = refl

  -- Whatever the file does with the writes, it gets the lines up to the first that fails, whole
  -- and in order, then as much of that one as was written, and nothing after it; that failure is
  -- the error that Err reports, and that Close returns before any of its own.
  pub appends_lem :
      (ws : List (List ℕ × Wrote E)) (existing : List ℕ) (closed : Option E)
      → ((appends ws (opened existing)).file ≡ existing ++ arrived ws)
        × ((appends ws (opened existing)).err ≡ first_error ws)
        × (close closed (appends ws (opened existing)) ≡ or_close (first_error ws) closed)
  unfolding close
  appends_lem ws existing closed =
      let is = appends-left ws existing in
      (
        ap (λ l. l.file) is,
        ap (λ l. l.err) is,
        ap (close closed) is ∙ close-left closed (first_error ws),
      )
