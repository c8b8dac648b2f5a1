-- ===== src/Daemon/Capped.antt =====
-- cmd/infinid/main.go, cappedWriter: the capture file with its budget. A budget that is spent from
-- the start is 0, with the writer stopped. Write always returns the length of its argument and no
-- error.
use infinid.Prelude.{
  ℕ, ◌-◌, ◌≤◌, ◌≡◌, refl, sym, ap, ◌∙◌, inl, inr, Bool, true, false, List, [], ◌∷◌, ◌++◌,
  append_assoc, append-nil, ltb, if◌then◌else◌, length, take, length-append, Bool-cases, arith,
}

pub record CappedWriter : Type 0 where
  pub file : List ℕ
  pub remain : ℕ
  pub stopped : Bool

-- What the file does with a write: all of it, or some bytes and an error.
pub data Wrote : Type 0 where
  whole : Wrote
  cut : ℕ → Wrote

abbrev put : Wrote → List ℕ → CappedWriter → CappedWriter
put whole p c = record c { file = c.file ++ p; remain = c.remain - length p }
put (cut n) p c = record c { file = c.file ++ take n p; stopped = true }

unfoldable pub write : List ℕ → Wrote → CappedWriter → CappedWriter
write p wrote c =
    if c.stopped
    then c
    else if ltb c.remain (length p)
    then record c { stopped = true }
    else put wrote p c

unfoldable pub writes : List (List ℕ) → CappedWriter → CappedWriter
unfolding write
writes [] c = c
writes (p ∷ ps) c = writes ps (write p whole c)

-- What fits into a budget: the writes up to the first that does not.
abbrev pub fitting : ℕ → List (List ℕ) → List ℕ
fitting budget [] = []
fitting budget (p ∷ ps) =
    let rest = fitting (budget - length p) ps in if ltb budget (length p) then [] else p ++ rest

length-fitting : (budget : ℕ) (ps : List (List ℕ)) → length (fitting budget ps) ≤ budget
length-fitting budget [] = omega arith
length-fitting budget (p ∷ ps) = elim (Bool-cases (ltb budget (length p))) [
  | inl over ↦ rw over (omega arith)
  | inr fits ↦
      let room : length p ≤ budget = ground arith in
      rw fits (
        omega (
          arith,
          length-append p (fitting (budget - length p) ps),
          length-fitting (budget - length p) ps,
        ))
]

module _ (p : List ℕ) (c : CappedWriter) where
  abbrev grown : CappedWriter
  grown = record c { file = c.file ++ p; remain = c.remain - length p }

  abbrev full : CappedWriter
  full = record c { stopped = true }

  write_stopped : c.stopped ≡ true → write p whole c ≡ c
  unfolding write
  write_stopped h = ap (λ b. if b then c else if ltb c.remain (length p) then full else grown) h

  write_going :
      c.stopped ≡ false → write p whole c ≡ (if ltb c.remain (length p) then full else grown)
  unfolding write
  write_going h = ap (λ b. if b then c else if ltb c.remain (length p) then full else grown) h

writes_stopped : (ps : List (List ℕ)) (c : CappedWriter) → c.stopped ≡ true → writes ps c ≡ c
unfolding writes
writes_stopped [] c h = refl
writes_stopped (p ∷ ps) c h = ap (writes ps) (write_stopped p c h) ∙ writes_stopped ps c h

writes-file :
    (ps : List (List ℕ)) (c : CappedWriter)
    → c.stopped ≡ false
    → (writes ps c).file ≡ c.file ++ fitting c.remain ps
unfolding writes
writes-file [] c h = sym (append-nil c.file)
writes-file (p ∷ ps) c h = elim (Bool-cases (ltb c.remain (length p))) [
  | inl over ↦
      ap (λ d. (writes ps d).file)
        (write_going p c h ∙ ap (λ b. if b then full p c else grown p c) over)
      ∙ ap (λ d. d.file) (writes_stopped ps (full p c) refl)
      ∙ rw over (sym (append-nil c.file))
  | inr fits ↦
      ap (λ d. (writes ps d).file)
        (write_going p c h ∙ ap (λ b. if b then full p c else grown p c) fits)
      ∙ writes-file ps (grown p c) h
      ∙ rw fits (append_assoc c.file p (fitting (c.remain - length p) ps))
]

-- A writer that is not stopped, on a file that takes every write: the file gets the writes up to
-- the first that exceeds what is left of the budget, each of them whole, and none after it; and
-- what it gets is within the budget.
pub writes_lem :
    (ps : List (List ℕ)) (c : CappedWriter)
    → c.stopped ≡ false
    → ((writes ps c).file ≡ c.file ++ fitting c.remain ps)
      × (length (fitting c.remain ps) ≤ c.remain)
writes_lem ps c h = (writes-file ps c h, length-fitting c.remain ps)
