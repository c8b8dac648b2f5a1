-- ===== src/Journal/Replay/Runs.antt =====
-- The journal over any operations and restarts.
use Prim.Native.String.{String}
use mathlib.Core.Path.{subst}
use infinid.Journal.{Journal, key_eq, event, append, note_device, check_liveness, note_faults}
use infinid.Journal.Counters.{
  is_marshalled, noted, note_power_counters, classified, classify_gap, differs, moved,
}
use infinid.Journal.Replay.{replay_event, open_journal}
use infinid.Journal.Replay.Recovers.{
  Recovers, append-Recovers, if-Recovers, note_device-Recovers, check_liveness-Recovers,
  note_faults-Recovers,
}
use infinid.Journal.Replay.Wipe.{IsKeyed}
use infinid.Prelude.Assoc.{nat_eq}
use infinid.Prelude.Float.{Float64}
use infinid.Protocol.Faults.{Fault}
use infinid.Prelude.{
  true, All, ℕ, ◌≡◌, refl, sym, ap, not, ◌||◌, List, [], ◌∷◌, All, ◌==◌, length, if◌then◌else◌,
}

module _ (F : Float64) where
  pub note_power_counters-Recovers :
      (vals : List (String × F.Carrier)) (now : ℕ) (j : Journal F.Carrier)
      → is_marshalled F vals ≡ true
      → Recovers j
      → Recovers (note_power_counters F vals now j)
  unfolding note_power_counters replay_event
  note_power_counters-Recovers vals now j finite r =
      let e = record (event {V = F.Carrier} now "power_counters") { values = vals } in
      let written = append e (record j { counters = vals }) in
      let same : noted F vals now j ≡ written =
        ap (λ b. if b then written else record j { counters = vals }) finite in
      if-Recovers
        (not (length j.counters == length vals)
          || differs F vals j.counters
          || differs F j.counters vals)
        (noted F vals now j) j
        (subst Recovers (sym same) (append-Recovers e j written r r.keyed refl refl)) r

  pub classify_gap-Recovers :
      (vals : List (String × F.Carrier)) (now : ℕ) (j : Journal F.Carrier)
      → Recovers j
      → Recovers (classify_gap F vals now j)
  unfolding classify_gap replay_event
  classify_gap-Recovers vals now j r =
      let gap = λ (g : String).
        append-Recovers (record (event {V = F.Carrier} now "outage_classified") { gap = g }) j
          (classified F g now j) r r.keyed refl refl in
      if-Recovers (length j.counters == 0) (classified F "no_reference" now j)
        (if moved F vals j.counters
          then classified F "hvac_power_loss" now j
          else classified F "monitoring_gap" now j)
        (gap "no_reference")
        (if-Recovers (moved F vals j.counters) (classified F "hvac_power_loss" now j)
          (classified F "monitoring_gap" now j) (gap "hvac_power_loss") (gap "monitoring_gap"))

  restart-Recovers : (j : Journal F.Carrier) → Recovers j → Recovers (open_journal j.log)
  unfolding open_journal
  restart-Recovers j r = record {
    replayed = refl;
    keyed = subst (λ q. IsKeyed q.faults) (sym r.replayed) r.keyed;
  }

  -- What happens to a journal: the calls of its operations, and a restart on its log.
  pub data Op : Type 0 where
    heard : ℕ → ℕ → Op
    checked : List ℕ → ℕ → Op
    counted : List (String × F.Carrier) → ℕ → Op
    started : List (String × F.Carrier) → ℕ → Op
    read : List Fault → ℕ → Op
    restarted : Op

  pub step : Op → Journal F.Carrier → Journal F.Carrier
  step (heard addr now) j = note_device addr now j
  step (checked active now) j = check_liveness now active j
  step (counted vals now) j = note_power_counters F vals now j
  step (started vals now) j = classify_gap F vals now j
  step (read fs now) j = note_faults fs now j
  step restarted j = open_journal j.log

  pub steps : List Op → Journal F.Carrier → Journal F.Carrier
  unfolding step
  steps [] j = j
  steps (op ∷ ops) j = steps ops (step op j)

  -- The counters are numbers that JSON has: neither NaN nor infinite.
  abbrev pub IsMarshalled : Op → Type 0
  IsMarshalled (counted vals now) = is_marshalled F vals ≡ true
  IsMarshalled _ = Unit {0}

  step-Recovers :
      (op : Op) (j : Journal F.Carrier) → IsMarshalled op → Recovers j → Recovers (step op j)
  unfolding step
  step-Recovers (heard addr now) j finite r = note_device-Recovers addr now j r
  step-Recovers (checked active now) j finite r = check_liveness-Recovers now active j r
  step-Recovers (counted vals now) j finite r = note_power_counters-Recovers vals now j finite r
  step-Recovers (started vals now) j finite r = classify_gap-Recovers vals now j r
  step-Recovers (read fs now) j finite r = note_faults-Recovers fs now j r
  step-Recovers restarted j finite r = restart-Recovers j r

  steps-Recovers :
      (ops : List Op) (j : Journal F.Carrier)
      → All IsMarshalled ops
      → Recovers j
      → Recovers (steps ops j)
  unfolding steps
  steps-Recovers [] j finite r = r
  steps-Recovers (op ∷ ops) j finite r =
      steps-Recovers ops (step op j) finite.1 (step-Recovers op j finite.0 r)

  -- After any operations and restarts from an empty log, if no power counter that was noted is NaN
  -- or infinite, a restart recovers from the log exactly the power counters and the known faults
  -- that the journal has.
  pub open_journal-steps :
      (ops : List Op)
      → All IsMarshalled ops
      → ((open_journal (steps ops (open_journal [])).log).counters
          ≡ (steps ops (open_journal [])).counters)
        × ((open_journal (steps ops (open_journal [])).log).faults
            ≡ (steps ops (open_journal [])).faults)
  unfolding open_journal
  open_journal-steps ops finite =
      let start : Journal F.Carrier = open_journal [] in
      let r = steps-Recovers ops start finite (record { replayed = refl; keyed = tt }) in
      (ap (λ q. q.counters) r.replayed, ap (λ q. q.faults) r.replayed)
