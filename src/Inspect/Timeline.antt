-- ===== src/Inspect/Timeline.antt =====
-- inspect/inspect.go, `Changes`: the timeline of one register.
pub mod Steps
pub mod Reads
use infinid.Inspect.{Rec, GroupKey, group_beq, key, sample, content}
use infinid.Inspect.Diff.{diff_offsets}
use infinid.Prelude.Assoc.{nat_eq}
use infinid.Prelude.Bytes.{bytes_beq}
use infinid.Prelude.Time.{before}
use infinid.Prelude.{
  ℕ, Bool, true, false, Option, none, some, List, [], ◌∷◌, leb, if◌then◌else◌, length,
}

pub record Change : Type 0 where
  pub ts : ℕ
  pub payload : List ℕ
  pub changed_from : List ℕ

abbrev pub is_group : GroupKey → Option GroupKey → Bool
is_group gk none = false
is_group gk (some other) = group_beq other gk

-- The loop that collects the register's samples.
unfoldable pub matched : GroupKey → List Rec → List Rec
matched gk [] = []
matched gk (r ∷ recs) = if is_group gk (sample r) then r ∷ matched gk recs else matched gk recs

-- `sort.SliceStable`, by time: a record stays in front of those of its own time.
unfoldable pub insert_rec : Rec → List Rec → List Rec
insert_rec r [] = r ∷ []
insert_rec r (q ∷ qs) = if before q.ts r.ts then q ∷ insert_rec r qs else r ∷ q ∷ qs

unfoldable pub sort_recs : List Rec → List Rec
unfolding insert_rec
sort_recs [] = []
sort_recs (r ∷ rs) = insert_rec r (sort_recs rs)

abbrev pub is_payload : List ℕ → Option (List ℕ) → Bool
is_payload payload none = false
is_payload payload (some prev) = bytes_beq prev payload

abbrev pub offsets_from : Option (List ℕ) → List ℕ → List ℕ
offsets_from none payload = []
offsets_from (some prev) payload = diff_offsets prev payload

-- The loop over the sorted samples; `prev` is none until there is one.
unfoldable pub collapse : Option (List ℕ) → List Rec → List Change
collapse prev [] = []
collapse prev (r ∷ rs) =
    let payload = content r in
    let same = collapse prev rs in
    let new = collapse (some payload) rs in
    if is_payload payload prev
    then same
    else record { ts = r.ts; payload = payload; changed_from = offsets_from prev payload } ∷ new

unfoldable pub changes : List Rec → ℕ → List ℕ → List Change
unfolding matched sort_recs collapse
changes recs owner reg =
    collapse none (sort_recs (matched (record { owner = owner; reg = reg }) recs))
