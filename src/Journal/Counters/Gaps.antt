-- ===== src/Journal/Counters/Gaps.antt =====
-- A gap after counters that were journaled.
use Prim.Native.String.{String}
use infinid.Journal.{Journal}
use infinid.Journal.Counters.{differs, note_power_counters, moved, classified, classify_gap}
use infinid.Prelude.Assoc.{string_eq, lookup}
use infinid.Prelude.Float.{Float64}
use infinid.Prelude.{
  ℕ, ◌<◌, ◌≡◌, refl, inl, inr, true, false, some, List, [], ◌∷◌, length, All, Option-cases, arith,
}

module _ (F : Float64) where
  -- Each entry is what the map has for its key, and its value is a number.
  abbrev pub AreNumbers : List (String × F.Carrier) → List (String × F.Carrier) → Type 0
  AreNumbers m = All (λ e. (lookup e.0 m ≡ some e.1) × (F.equal e.1 e.1 ≡ true))

  moved_self : (rest m : List (String × F.Carrier)) → AreNumbers m rest → moved F rest m ≡ false
  unfolding moved
  moved_self [] m h = refl
  moved_self ((k, v) ∷ rest) m ((here, number), h) =
      rw (here, moved) (rw number (moved_self rest m h))

  moved_same :
      (rest m : List (String × F.Carrier)) → differs F rest m ≡ false → moved F rest m ≡ false
  unfolding moved differs
  moved_same [] m h = refl
  moved_same ((k, v) ∷ rest) m h = elim (Option-cases (lookup k m)) [
    | inl missing ↦ rw (missing, moved) (moved_same rest m (ground arith))
    | inr (prev, here) ↦ rw (here, moved) (ground (arith, moved_same rest m, F.equal_comm v prev))
  ]

  -- When the counters that were just noted, at least one, each a number and with keys that differ,
  -- are what a restart finds, the gap is classified as one of monitoring.
  pub classify_gap-note_power_counters :
      (vals : List (String × F.Carrier)) (now later : ℕ) (j : Journal F.Carrier)
      (any : 0 < length vals) (numbers : AreNumbers vals vals)
      → classify_gap F vals later (note_power_counters F vals now j)
        ≡ classified F "monitoring_gap" later (note_power_counters F vals now j)
  unfolding classify_gap note_power_counters
  classify_gap-note_power_counters vals now later j any numbers =
      ground (arith, moved_self vals vals numbers, moved_same vals j.counters)
