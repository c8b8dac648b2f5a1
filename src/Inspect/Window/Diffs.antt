-- ===== src/Inspect/Window/Diffs.antt =====
-- What `DiffAt` lists.
use infinid.Inspect.{Rec, GroupKey, group_eq, group_beq, group_beq_iff, group_lt, sample, content}
use infinid.Inspect.Window.{
  RegDiff, Sides, in_before, in_after, better, later, note_sample, note_sides, collect, sort_keys,
  diff_of, add_diff, emit, diff_at,
}
use infinid.Inspect.Window.Samples.{Latest, Earliest, collect_lem}
use infinid.Inspect.Window.Order.{Ascending, contains-sort_keys, sort_keys-Ascending}
use infinid.Prelude.Assoc.{lookup}
use infinid.Prelude.Bytes.{bytes_beq, contains, Distinct}
use infinid.Prelude.Keys.{keys, keys-insert-Distinct, lookup-of_not_keys}
use infinid.Prelude.{
  ℕ, ◌+◌, ◌-◌, ◌≡◌, inl, inr, refl, sym, ap, ◌∙◌, Bool, true, false, Option, none, some, List, [],
  ◌∷◌, if◌then◌else◌, All, Bool-cases, arith,
}

abbrev pub groups : List RegDiff → List GroupKey
groups [] = []
groups (d ∷ ds) = d.group ∷ groups ds

-- The entry of a register.
abbrev pub entry : GroupKey → List RegDiff → Option RegDiff
entry gk [] = none
entry gk (d ∷ ds) = if group_beq d.group gk then some d else entry gk ds

note_sample-Distinct :
    (start at end : ℕ) (r : Rec) (k : Option GroupKey) (s : Sides)
    → Distinct (keys s.before)
    → Distinct (keys (note_sample start at end r k s).before)
note_sample-Distinct start at end r none s d = d
note_sample-Distinct start at end r (some k) s d = elim (Bool-cases (in_before start at r)) [
  | inl here ↦ elim (Bool-cases (better later r (lookup k s.before))) [
    | inl won ↦ rw (here, won) (keys-insert-Distinct k r s.before d)
    | inr lost ↦ rw (here, lost) d
  ]
  | inr out ↦ elim (Bool-cases (in_after at end r)) [
    | inl after ↦ rw (out, after) d
    | inr outside ↦ rw (out, outside) d
  ]
]

collect-Distinct :
    (start at end : ℕ) (recs : List Rec) (s : Sides)
    → Distinct (keys s.before)
    → Distinct (keys (collect start at end recs s).before)
unfolding collect note_sides
collect-Distinct start at end [] s d = d
collect-Distinct start at end (r ∷ recs) s d =
    collect-Distinct start at end recs (note_sides start at end r s)
      (note_sample-Distinct start at end r (sample r) s d)

abbrev some_or : Option RegDiff → Option RegDiff → Option RegDiff
some_or none d = d
some_or (some d) e = some d

entry-add_diff :
    (gk k : GroupKey) (b a : Option Rec) (out : List RegDiff)
    → entry gk (add_diff (diff_of k b a) out)
      ≡ (if group_beq k gk then some_or (diff_of k b a) (entry gk out) else entry gk out)
entry-add_diff gk k none a out = ground arith
entry-add_diff gk k (some b) none out = ground arith
entry-add_diff gk k (some b) (some a) out = ground arith

diff_in : Sides → GroupKey → Option RegDiff
diff_in s gk = diff_of gk (lookup gk s.before) (lookup gk s.after)

some_or_same : (d : Option RegDiff) (b : Bool) → some_or d (if b then d else none) ≡ d
some_or_same none true = refl
some_or_same none false = refl
some_or_same (some d) b = refl

entry-emit :
    (s : Sides) (gks : List GroupKey) (gk : GroupKey)
    → entry gk (emit s gks) ≡ (if contains gks gk then diff_in s gk else none)
unfolding emit contains diff_in
entry-emit s [] gk = refl
entry-emit s (k ∷ gks) gk =
    entry-add_diff gk k (lookup k s.before) (lookup k s.after) (emit s gks)
    ∙ elim (Bool-cases (group_beq k gk)) [
      | inl same ↦
          let is : k ≡ gk = (group_beq_iff k gk).0 same in
          rw same (
            ap (some_or (diff_in s k)) (entry-emit s gks gk)
            ∙ ap (λ j. some_or (diff_in s j) (if contains gks gk then diff_in s gk else none)) is
            ∙ some_or_same (diff_in s gk) (contains gks gk))
      | inr other ↦ rw other (entry-emit s gks gk)
    ]

groups-add_diff-All :
    (m k : GroupKey) (b a : Option Rec) (out : List RegDiff)
    → group_lt m k ≡ true
    → All (λ j. group_lt m j ≡ true) (groups out)
    → All (λ j. group_lt m j ≡ true) (groups (add_diff (diff_of k b a) out))
groups-add_diff-All m k none a out h all = all
groups-add_diff-All m k (some b) none out h all = all
groups-add_diff-All m k (some b) (some a) out h all =
    elim (Bool-cases (bytes_beq (content b) (content a))) [
      | inl same ↦ rw same all
      | inr moved ↦ rw moved (h, all)
    ]

groups-emit-All :
    (m : GroupKey) (s : Sides) (gks : List GroupKey)
    → All (λ j. group_lt m j ≡ true) gks
    → All (λ j. group_lt m j ≡ true) (groups (emit s gks))
unfolding emit
groups-emit-All m s [] all = tt
groups-emit-All m s (k ∷ gks) all =
    groups-add_diff-All m k (lookup k s.before) (lookup k s.after) (emit s gks) all.0
      (groups-emit-All m s gks all.1)

groups-add_diff-Ascending :
    (k : GroupKey) (b a : Option Rec) (out : List RegDiff)
    → All (λ j. group_lt k j ≡ true) (groups out)
    → Ascending (groups out)
    → Ascending (groups (add_diff (diff_of k b a) out))
groups-add_diff-Ascending k none a out all asc = asc
groups-add_diff-Ascending k (some b) none out all asc = asc
groups-add_diff-Ascending k (some b) (some a) out all asc =
    elim (Bool-cases (bytes_beq (content b) (content a))) [
      | inl same ↦ rw same asc
      | inr moved ↦ rw moved (all, asc)
    ]

groups-emit-Ascending :
    (s : Sides) (gks : List GroupKey) → Ascending gks → Ascending (groups (emit s gks))
unfolding emit
groups-emit-Ascending s [] asc = tt
groups-emit-Ascending s (k ∷ gks) asc =
    groups-add_diff-Ascending k (lookup k s.before) (lookup k s.after) (emit s gks)
      (groups-emit-All k s gks asc.0) (groups-emit-Ascending s gks asc.1)

-- A key that is not collected has no sample before, and adds nothing.
diff_in_absent :
    (s : Sides) (gk : GroupKey)
    → (if contains (keys s.before) gk then diff_in s gk else none) ≡ diff_in s gk
unfolding diff_in
diff_in_absent s gk = elim (Bool-cases (contains (keys s.before) gk)) [
  | inl there ↦ rw there refl
  | inr absent ↦
      rw absent
        (ap (λ b. diff_of gk b (lookup gk s.after)) (sym (lookup-of_not_keys gk s.before absent)))
]

-- The differences are in the order of the keys, at most one for each register. For each register
-- there are `b`, a latest sample in [at - window, at] if there is one, and `a`, an earliest one in
-- (at, at + window] if there is one, such that it is listed exactly when both are there and their
-- contents differ, with these contents and the offsets at which they differ.
pub diff_at_lem :
    (recs : List Rec) (at window : ℕ)
    → Ascending (groups (diff_at recs at window))
      × ((gk : GroupKey)
          → (b : Option Rec) × ((a : Option Rec) × Latest gk (at - window) at recs b
              × Earliest gk at (at + window) recs a
              × (entry gk (diff_at recs at window) ≡ diff_of gk b a)))
unfolding diff_at diff_in keys contains
diff_at_lem recs at window =
    let start : Sides = record { before = []; after = [] } in
    let s = collect (at - window) at (at + window) recs start in
    let once = collect-Distinct (at - window) at (at + window) recs start tt in
    (
      groups-emit-Ascending s (sort_keys (keys s.before))
          (sort_keys-Ascending (keys s.before) once),
      λ gk.
          let held = collect_lem gk (at - window) at (at + window) recs in
          (
            lookup gk s.before,
            (
              lookup gk s.after,
              held.0,
              held.1,
              entry-emit s (sort_keys (keys s.before)) gk
                  ∙ ap (λ b. if b then diff_in s gk else none)
                      (contains-sort_keys (keys s.before) gk)
                  ∙ diff_in_absent s gk,
            ),
          ),
    )
