-- ===== src/Inspect/Timeline/Steps.antt =====
-- The order of a timeline, and what each of its entries adds to the one before.
use infinid.Inspect.{Rec, content}
use infinid.Inspect.Timeline.{
  Change, matched, insert_rec, sort_recs, is_payload, offsets_from, collapse, changes,
}
use infinid.Prelude.Bytes.{bytes_beq, bytes_beq_iff}
use infinid.Prelude.Time.{before}
use infinid.Prelude.{
  ℕ, ◌≤◌, ◌≡◌, ◌≢◌, inl, inr, refl, true, false, Option, none, some, List, [], ◌∷◌, Bool-cases,
  arith,
}

-- The records' times do not go back, and start at `lo` or later.
abbrev pub Rises : ℕ → List Rec → Type 0
Rises lo [] = Unit {0}
Rises lo (r ∷ rs) = (lo ≤ r.ts) × Rises r.ts rs

abbrev pub Chronological : ℕ → List Change → Type 0
Chronological lo [] = Unit {0}
Chronological lo (c ∷ cs) = (lo ≤ c.ts) × Chronological c.ts cs

-- Every entry differs from the payload before it, and lists the offsets of the difference.
abbrev pub Alternates : Option (List ℕ) → List Change → Type 0
Alternates prev [] = Unit {0}
Alternates prev (c ∷ cs) =
    (prev ≢ some c.payload)
    × (c.changed_from ≡ offsets_from prev c.payload)
    × Alternates (some c.payload) cs

insert_rec-Rises :
    (lo : ℕ) (r : Rec) (rs : List Rec) → lo ≤ r.ts → Rises lo rs → Rises lo (insert_rec r rs)
unfolding insert_rec
insert_rec-Rises lo r [] h up = (h, tt)
insert_rec-Rises lo r (q ∷ qs) h up = elim (Bool-cases (before q.ts r.ts)) [
  | inl later ↦ rw later (up.0, insert_rec-Rises q.ts r qs (ground arith) up.1)
  | inr first ↦ rw first (h, (ground arith, up.1))
]

pub sort_recs-Rises : (rs : List Rec) → Rises 0 (sort_recs rs)
unfolding sort_recs
sort_recs-Rises [] = tt
sort_recs-Rises (r ∷ rs) = insert_rec-Rises 0 r (sort_recs rs) (omega arith) (sort_recs-Rises rs)

Rises-weaken : (lo hi : ℕ) (rs : List Rec) → lo ≤ hi → Rises hi rs → Rises lo rs
Rises-weaken lo hi [] h up = tt
Rises-weaken lo hi (r ∷ rs) h up = (omega arith, up.1)

collapse-Chronological :
    (lo : ℕ) (prev : Option (List ℕ)) (rs : List Rec)
    → Rises lo rs
    → Chronological lo (collapse prev rs)
unfolding collapse
collapse-Chronological lo prev [] up = tt
collapse-Chronological lo prev (r ∷ rs) up = elim (Bool-cases (is_payload (content r) prev)) [
  | inl same ↦ rw same (collapse-Chronological lo prev rs (Rises-weaken lo r.ts rs up.0 up.1))
  | inr new ↦ rw new (up.0, collapse-Chronological r.ts (some (content r)) rs up.1)
]

ne_of_is_payload :
    (payload : List ℕ) (prev : Option (List ℕ))
    → is_payload payload prev ≡ false
    → prev ≢ some payload
ne_of_is_payload payload none h e = cc
ne_of_is_payload payload (some q) h e =
    let same : q ≡ payload = cc in
    let t : bytes_beq q payload ≡ true = (bytes_beq_iff q payload).1 same in cc

collapse-Alternates : (prev : Option (List ℕ)) (rs : List Rec) → Alternates prev (collapse prev rs)
unfolding collapse
collapse-Alternates prev [] = tt
collapse-Alternates prev (r ∷ rs) = elim (Bool-cases (is_payload (content r) prev)) [
  | inl same ↦ rw same (collapse-Alternates prev rs)
  | inr new ↦
      rw new
        (ne_of_is_payload (content r) prev new, refl, collapse-Alternates (some (content r)) rs)
]

-- A timeline is in chronological order; each entry differs from the one before it and lists the
-- offsets at which it does, and the first lists none.
pub changes_lem :
    (recs : List Rec) (owner : ℕ) (reg : List ℕ)
    → Chronological 0 (changes recs owner reg) × Alternates none (changes recs owner reg)
unfolding changes
changes_lem recs owner reg =
    let sorted = sort_recs (matched (record { owner = owner; reg = reg }) recs) in
    (
      collapse-Chronological 0 none sorted
          (sort_recs-Rises (matched (record { owner = owner; reg = reg }) recs)),
      collapse-Alternates none sorted,
    )
