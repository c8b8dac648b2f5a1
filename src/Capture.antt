-- ===== src/Capture.antt =====
-- capture/recorder.go: the ring of recent frames. The lines that `Add` appends to a writer do not
-- change the ring, and are not modelled; nor does the mutex, under which each call is one step.
pub mod Ring
pub mod Lines
use infinid.Prelude.{ℕ, ◌-◌, List, [], ◌∷◌, ◌++◌, ltb, if◌then◌else◌, length, drop}

-- `payload` is the source's Data.
pub record Record : Type 0 where
  pub ts : ℕ
  pub src : ℕ
  pub dst : ℕ
  pub op : ℕ
  pub payload : List ℕ
  pub raw : List ℕ

pub record Recorder : Type 0 where
  pub ring : List Record
  pub max : ℕ

-- The source's `max` is an int: a negative one is like 0.
unfoldable pub new : ℕ → Recorder
new max = record { ring = []; max = if ltb max 1 then 1 else max }

unfoldable pub add : Record → Recorder → Recorder
add rec r =
    let ring = r.ring ++ rec ∷ [] in
    if ltb r.max (length ring)
    then record r { ring = drop (length ring - r.max) ring }
    else record r { ring = ring }

unfoldable pub snapshot : Recorder → List Record
snapshot r = r.ring

unfoldable pub add_all : List Record → Recorder → Recorder
add_all [] r = r
add_all (rec ∷ recs) r = add_all recs (add rec r)
