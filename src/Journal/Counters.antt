-- ===== src/Journal/Counters.antt =====
-- state/journal.go: the power counters, and what a change of them says of a gap.
pub mod Gaps
use Prim.Native.String.{String}
use infinid.Journal.{Journal, event, append}
use infinid.Prelude.Assoc.{string_eq, lookup}
use infinid.Prelude.Float.{Float64, pos}
use infinid.Prelude.{
  ℕ, Bool, true, false, not, ◌&&◌, ◌||◌, none, some, List, [], ◌∷◌, ◌==◌, if◌then◌else◌, length,
}

module _ (F : Float64) where
  -- `m[k]` of a map of floats, 0 for a missing key.
  abbrev pub float_at : String → List (String × F.Carrier) → F.Carrier
  float_at k m = elim (lookup k m) [ none ↦ F.of_int (pos 0) | some v ↦ v ]

  -- Some key of the first map has another value in the second.
  unfoldable pub differs : List (String × F.Carrier) → List (String × F.Carrier) → Bool
  differs [] m = false
  differs ((k, v) ∷ rest) m = if not (F.equal (float_at k m) v) then true else differs rest m

  -- json.Marshal refuses a map with a float that is NaN or infinite.
  unfoldable pub is_marshalled : List (String × F.Carrier) → Bool
  is_marshalled [] = true
  is_marshalled ((k, v) ∷ vals) = not (F.is_nan v || F.is_inf v) && is_marshalled vals

  -- The error of json.Marshal is dropped: the line is then empty, and no event.
  abbrev pub noted : List (String × F.Carrier) → ℕ → Journal F.Carrier → Journal F.Carrier
  noted vals now j =
      let updated = record j { counters = vals } in
      if is_marshalled vals
      then append (record (event now "power_counters") { values = vals }) updated
      else updated

  unfoldable pub note_power_counters :
      List (String × F.Carrier) → ℕ → Journal F.Carrier → Journal F.Carrier
  unfolding differs is_marshalled
  note_power_counters vals now j =
      if not (length j.counters == length vals)
        || differs vals j.counters
        || differs j.counters vals
      then noted vals now j
      else j

  -- Some counter that was journaled has another value now.
  unfoldable pub moved : List (String × F.Carrier) → List (String × F.Carrier) → Bool
  moved [] m = false
  moved ((k, v) ∷ rest) m =
      let later = moved rest m in
      elim (lookup k m) [ none ↦ later | some prev ↦ not (F.equal v prev) || later ]

  abbrev pub classified : String → ℕ → Journal F.Carrier → Journal F.Carrier
  classified gap now j = append (record (event now "outage_classified") { gap = gap }) j

  unfoldable pub classify_gap :
      List (String × F.Carrier) → ℕ → Journal F.Carrier → Journal F.Carrier
  unfolding moved
  classify_gap vals now j =
      if length j.counters == 0
      then classified "no_reference" now j
      else if moved vals j.counters
      then classified "hvac_power_loss" now j
      else classified "monitoring_gap" now j
