-- ===== src/Daemon/Counters.antt =====
-- cmd/infinid/main.go, trackCounter: the two power counters, for the journal.
use Prim.Native.String.{String}
use text.Mathlib.Text.{◌==◌ as str_eq}
use infinid.Journal.{Event, event, Journal}
use infinid.Journal.Counters.{
  is_marshalled, noted, note_power_counters, classified, classify_gap, differs, moved,
}
use infinid.Prelude.Assoc.{string_eq, insert}
use infinid.Prelude.Float.{Float64}
use infinid.Reading.{Reading}
use infinid.Prelude.{
  ℕ, suc, ◌+◌, ◌≡◌, refl, ◌∙◌, inl, inr, Bool, true, false, not, ◌||◌, List, [], ◌∷◌, ◌++◌, ◌==◌,
  if◌then◌else◌, length, Bool-cases, arith,
}

-- The daemon's counters, and whether the gap has been classified.
pub record Tracker (V : Type 0) : Type 0 where
  pub counters : List (String × V)
  pub classified : Bool

module _ (F : Float64) where
  abbrev pub Tracked : Type 0
  Tracked = Tracker F.Carrier × Journal F.Carrier

  abbrev pub is_power_counter : String → Bool
  is_power_counter field = str_eq field "idu_power_cycles" || str_eq field "odu_power_cycles"

  abbrev pub note_both :
      List (String × F.Carrier) → Bool → ℕ → Journal F.Carrier → Journal F.Carrier
  note_both vals classified now j =
      note_power_counters F vals now (if classified then j else classify_gap F vals now j)

  -- With a journal; without one it does nothing.
  unfoldable pub track_counter : Reading F.Carrier → ℕ → Tracked → Tracked
  track_counter r now (t, j) =
      if not (is_power_counter r.field)
      then (t, j)
      else let vals = insert r.field r.value t.counters in
        if length vals == 2
        then (record { counters = vals; classified = true }, note_both vals t.classified now j)
        else (record t { counters = vals }, j)

  unfoldable pub track_all : List (Reading F.Carrier × ℕ) → Tracked → Tracked
  unfolding track_counter
  track_all [] p = p
  track_all ((r, now) ∷ rs) p = track_all rs (track_counter r now p)

  -- The classifications in a log.
  abbrev pub outages : List (Event F.Carrier) → ℕ
  outages [] = 0
  outages (e ∷ es) =
      let rest = outages es in if str_eq e.kind "outage_classified" then suc rest else rest

  outages-append : (xs ys : List (Event F.Carrier)) → outages (xs ++ ys) ≡ outages xs + outages ys
  outages-append [] ys = omega arith
  outages-append (e ∷ xs) ys = ground (arith, outages-append xs ys)

  outages-noted :
      (vals : List (String × F.Carrier)) (now : ℕ) (j : Journal F.Carrier)
      → outages (noted F vals now j).log ≡ outages j.log
  outages-noted vals now j = elim (Bool-cases (is_marshalled F vals)) [
    | inl finite ↦ rw finite (
        omega (
          arith,
          outages-append j.log (record (event now "power_counters") { values = vals } ∷ []),
        ))
    | inr refused ↦ rw refused refl
  ]

  outages-note_power_counters :
      (vals : List (String × F.Carrier)) (now : ℕ) (j : Journal F.Carrier)
      → outages (note_power_counters F vals now j).log ≡ outages j.log
  unfolding note_power_counters
  outages-note_power_counters vals now j =
      elim (Bool-cases (
        not (length j.counters == length vals)
        || differs F vals j.counters
        || differs F j.counters vals)) [
          | inl changed ↦ rw changed (outages-noted vals now j)
          | inr same ↦ rw same refl
        ]

  outages-classified :
      (gap : String) (now : ℕ) (j : Journal F.Carrier)
      → outages (classified F gap now j).log ≡ suc (outages j.log)
  outages-classified gap now j =
      omega
        (arith, outages-append j.log (record (event now "outage_classified") { gap = gap } ∷ []))

  outages-classify_gap :
      (vals : List (String × F.Carrier)) (now : ℕ) (j : Journal F.Carrier)
      → outages (classify_gap F vals now j).log ≡ suc (outages j.log)
  unfolding classify_gap
  outages-classify_gap vals now j = elim (Bool-cases (length j.counters == 0)) [
    | inl none' ↦ rw none' (outages-classified "no_reference" now j)
    | inr some' ↦ elim (Bool-cases (moved F vals j.counters)) [
      | inl lost ↦ rw (some', lost) (outages-classified "hvac_power_loss" now j)
      | inr same ↦ rw (some', same) (outages-classified "monitoring_gap" now j)
    ]
  ]

  -- The classifications made, and the one that is still to be made.
  abbrev pub budget : Tracked → ℕ
  budget (t, j) = outages j.log + (if t.classified then 0 else 1)

  note_both-budget :
      (vals : List (String × F.Carrier)) (b : Bool) (now : ℕ) (j : Journal F.Carrier)
      → outages (note_both vals b now j).log + 0 ≡ outages j.log + (if b then 0 else 1)
  note_both-budget vals true now j = omega (arith, outages-note_power_counters vals now j)
  note_both-budget vals false now j = omega (
    arith,
    outages-note_power_counters vals now (classify_gap F vals now j),
    outages-classify_gap vals now j,
  )

  track_counter-budget :
      (r : Reading F.Carrier) (now : ℕ) (p : Tracked) → budget (track_counter r now p) ≡ budget p
  unfolding track_counter
  track_counter-budget r now (t, j) = elim (Bool-cases (not (is_power_counter r.field))) [
    | inl other ↦ rw other refl
    | inr mine ↦
        let vals = insert r.field r.value t.counters in
        elim (Bool-cases (length vals == 2)) [
          | inl both ↦ rw (mine, both) (note_both-budget vals t.classified now j)
          | inr one ↦ rw (mine, one) refl
        ]
  ]

  -- Over any readings, the gap is classified once at most, and not at all if it has been: the
  -- classifications in the journal grow by one exactly when the daemon comes to hold that it is
  -- classified.
  pub track_all-budget :
      (rs : List (Reading F.Carrier × ℕ)) (p : Tracked) → budget (track_all rs p) ≡ budget p
  unfolding track_all
  track_all-budget [] p = refl
  track_all-budget ((r, now) ∷ rs) p =
      track_all-budget rs (track_counter r now p) ∙ track_counter-budget r now p
