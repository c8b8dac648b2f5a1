-- ===== src/Inspect/Window.antt =====
-- inspect/inspect.go, `DiffAt`: what moved around an instant. The window is not negative: one that
-- is holds no record on either side. A start before Go's zero time is that time, the earliest.
pub mod Samples
pub mod Order
pub mod Diffs
use infinid.Inspect.{Rec, GroupKey, group_eq, group_beq, group_lt, key, sample, content}
use infinid.Inspect.Diff.{diff_offsets}
use infinid.Prelude.Keys.{keys}
use infinid.Prelude.Assoc.{lookup, insert}
use infinid.Prelude.Bytes.{bytes_beq}
use infinid.Prelude.Time.{before}
use infinid.Prelude.{
  ℕ, ◌+◌, ◌-◌, Bool, true, not, ◌&&◌, Option, none, some, List, [], ◌∷◌, if◌then◌else◌,
}

pub record RegDiff : Type 0 where
  pub group : GroupKey
  pub before : List ℕ
  pub after : List ℕ
  pub changed : List ℕ

pub record Sides : Type 0 where
  pub before : List (GroupKey × Rec)
  pub after : List (GroupKey × Rec)

abbrev pub in_before : ℕ → ℕ → Rec → Bool
in_before start at r = not (before r.ts start) && not (before at r.ts)

abbrev pub in_after : ℕ → ℕ → Rec → Bool
in_after at end r = before at r.ts && not (before end r.ts)

-- A record, against the one that is held.
abbrev pub better : (Rec → Rec → Bool) → Rec → Option Rec → Bool
better beats r none = true
better beats r (some cur) = beats r cur

abbrev pub later : Rec → Rec → Bool
later r cur = before cur.ts r.ts

abbrev pub earlier : Rec → Rec → Bool
earlier r cur = before r.ts cur.ts

abbrev pub note_side : ℕ → ℕ → ℕ → Rec → GroupKey → Sides → Sides
note_side start at end r gk s =
    if in_before start at r
    then record s {
      before = if better later r (lookup gk s.before) then insert gk r s.before else s.before;
    }
    else if in_after at end r
    then record s {
      after = if better earlier r (lookup gk s.after) then insert gk r s.after else s.after;
    }
    else s

abbrev pub note_sample : ℕ → ℕ → ℕ → Rec → Option GroupKey → Sides → Sides
note_sample start at end r none s = s
note_sample start at end r (some gk) s = note_side start at end r gk s

-- One round of the loop over the records.
unfoldable pub note_sides : ℕ → ℕ → ℕ → Rec → Sides → Sides
note_sides start at end r s = note_sample start at end r (sample r) s

unfoldable pub collect : ℕ → ℕ → ℕ → List Rec → Sides → Sides
unfolding note_sides
collect start at end [] s = s
collect start at end (r ∷ recs) s = collect start at end recs (note_sides start at end r s)

-- `sort.Slice`, of keys that are all different.
unfoldable pub insert_key : GroupKey → List GroupKey → List GroupKey
insert_key k [] = k ∷ []
insert_key k (j ∷ js) = if group_lt j k then j ∷ insert_key k js else k ∷ j ∷ js

unfoldable pub sort_keys : List GroupKey → List GroupKey
unfolding insert_key
sort_keys [] = []
sort_keys (k ∷ ks) = insert_key k (sort_keys ks)

abbrev pub reg_diff : GroupKey → List ℕ → List ℕ → RegDiff
reg_diff gk bp ap = record { group = gk; before = bp; after = ap; changed = diff_offsets bp ap }

-- What one key adds. Every key has a sample before.
abbrev pub diff_of : GroupKey → Option Rec → Option Rec → Option RegDiff
diff_of gk none a = none
diff_of gk (some b) none = none
diff_of gk (some b) (some a) =
    if bytes_beq (content b) (content a) then none else some (reg_diff gk (content b) (content a))

abbrev pub add_diff : Option RegDiff → List RegDiff → List RegDiff
add_diff none out = out
add_diff (some d) out = d ∷ out

-- The loop over the sorted keys.
unfoldable pub emit : Sides → List GroupKey → List RegDiff
emit s [] = []
emit s (gk ∷ gks) = add_diff (diff_of gk (lookup gk s.before) (lookup gk s.after)) (emit s gks)

unfoldable pub diff_at : List Rec → ℕ → ℕ → List RegDiff
unfolding collect keys sort_keys emit
diff_at recs at window =
    let s = collect (at - window) at (at + window) recs (record { before = []; after = [] }) in
    emit s (sort_keys (keys s.before))
