-- ===== src/Journal/Liveness.antt =====
-- What a liveness check leaves.
use infinid.Prelude.Assoc.{nat_eq, lookup, lookup-insert}
use infinid.Prelude.Bytes.{contains}
use infinid.Prelude.Time.{sub_time}
use infinid.Journal.{
  Journal, device_lost_after, is_lost, note_device, note_devices, lose, lose_quiet, check_unheard,
  check_heard, check_liveness,
}
use infinid.Prelude.{
  ℕ, ◌<◌, ◌≡◌, ◌≢◌, inl, inr, refl, ap, sym, ◌∙◌, Bool, true, false, not, ◌&&◌, some, List, [], ◌∷◌,
  ltb, ◌==◌, if◌then◌else◌, length, All, Bool-cases, arith,
}

-- A device has not been heard for longer than is allowed.
abbrev pub is_quiet : ℕ → ℕ → Bool
is_quiet now ts = ltb device_lost_after (sub_time now ts)

lookup_none : (addr ts : ℕ) → lookup {V = ℕ} addr [] ≢ some ts
unfolding lookup
lookup_none addr ts e = cc

lookup_empty :
    (addr : ℕ) (seen : List (ℕ × ℕ)) {ts : ℕ}
    → lookup addr seen ≡ some ts
    → (length seen == 0) ≡ false
lookup_empty addr [] here = absurd (lookup_none addr _ here)
lookup_empty addr (d ∷ seen) here = ground arith

lookup_first :
    (addr a t : ℕ) (seen : List (ℕ × ℕ))
    → lookup addr ((a, t) ∷ seen) ≡ (if a == addr then some t else lookup addr seen)
unfolding lookup
lookup_first addr a t seen = refl

module _ {V : Type 0} where
  lose_quiet-keeps_lost :
      (now : ℕ) (seen : List (ℕ × ℕ)) (addr : ℕ) (j : Journal V)
      → is_lost addr j ≡ true
      → is_lost addr (lose_quiet now seen j) ≡ true
  unfolding lose_quiet
  lose_quiet-keeps_lost now [] addr j h = h
  lose_quiet-keeps_lost now ((a, ts) ∷ seen) addr j h =
      lose_quiet-keeps_lost now seen addr _ (ground (arith, lookup-insert a addr true j.lost))

  lose_quiet-marks :
      (now : ℕ) (seen : List (ℕ × ℕ)) (addr ts : ℕ) (j : Journal V)
      → lookup addr seen ≡ some ts
      → is_quiet now ts ≡ true
      → is_lost addr (lose_quiet now seen j) ≡ true
  unfolding lose_quiet
  lose_quiet-marks now [] addr ts j here quiet = absurd (lookup_none addr ts here)
  lose_quiet-marks now ((a, t) ∷ seen) addr ts j here quiet = elim (Bool-cases (a == addr)) [
    | inl own ↦
        lose_quiet-keeps_lost now seen addr _
          (ground (arith, lookup_first addr a t seen, lookup-insert a addr true j.lost))
    | inr other ↦
        lose_quiet-marks now seen addr ts _ (ground (arith, lookup_first addr a t seen)) quiet
  ]

  lose_quiet-bus_silent :
      (now : ℕ) (seen : List (ℕ × ℕ)) (j : Journal V)
      → (lose_quiet now seen j).bus_silent ≡ j.bus_silent
  unfolding lose_quiet
  lose_quiet-bus_silent now [] j = refl
  lose_quiet-bus_silent now ((a, t) ∷ seen) j = lose_quiet-bus_silent now seen _ ∙ ground arith

  lose_quiet-last_seen :
      (now : ℕ) (seen : List (ℕ × ℕ)) (j : Journal V)
      → (lose_quiet now seen j).last_seen ≡ j.last_seen
  unfolding lose_quiet
  lose_quiet-last_seen now [] j = refl
  lose_quiet-last_seen now ((a, t) ∷ seen) j = lose_quiet-last_seen now seen _ ∙ ground arith

  note_device-last_seen :
      (a now addr : ℕ) (j : Journal V)
      → (a == addr) ≡ false
      → lookup addr (note_device a now j).last_seen ≡ lookup addr j.last_seen
  unfolding note_device
  note_device-last_seen a now addr j other = ground (arith, lookup-insert a addr now j.last_seen)

  -- A device that is not active has been heard when it had been before.
  note_devices-last_seen :
      (active : List ℕ) (now addr : ℕ) (j : Journal V)
      → contains active addr ≡ false
      → lookup addr (note_devices active now j).last_seen ≡ lookup addr j.last_seen
  unfolding note_devices contains
  note_devices-last_seen [] now addr j idle = refl
  note_devices-last_seen (a ∷ active) now addr j idle =
      note_devices-last_seen active now addr (note_device a now j) (ground arith)
      ∙ note_device-last_seen a now addr j (ground arith)

  -- A check, with whatever devices active, after which the bus is not silent leaves every device
  -- marked lost that is not active and has not been heard for more than thirty seconds.
  pub check_liveness-is_lost :
      (now addr ts : ℕ) (active : List ℕ) (j : Journal V) (idle : contains active addr ≡ false)
      (here : lookup addr j.last_seen ≡ some ts) (quiet : is_quiet now ts ≡ true)
      (talking : (check_liveness now active j).bus_silent ≡ false)
      → is_lost addr (check_liveness now active j) ≡ true
  unfolding check_liveness
  check_liveness-is_lost now addr ts active j idle here quiet talking =
      let n = note_devices active now j in
      let still = note_devices-last_seen active now addr j idle ∙ here in
      ground (
        arith,
        lose_quiet-marks now n.last_seen addr ts n still quiet,
        lookup_empty addr n.last_seen still,
      )

  -- Every device in the list that is quiet is marked lost already.
  abbrev Marked : ℕ → Journal V → List (ℕ × ℕ) → Type 0
  Marked now j = All (λ d. is_quiet now d.1 ≡ true → is_lost d.0 j ≡ true)

  lose_quiet-same :
      (now : ℕ) (seen : List (ℕ × ℕ)) (j : Journal V)
      → Marked now j seen
      → lose_quiet now seen j ≡ j
  unfolding lose_quiet
  lose_quiet-same now [] j h = refl
  lose_quiet-same now ((a, t) ∷ seen) j (h0, h) = elim (Bool-cases (is_quiet now t)) [
    | inl quiet ↦ rw (h0 quiet) (lose_quiet-same now seen j h)
    | inr heard ↦
        let stays : (if not (is_lost a j) && is_quiet now t then lose a now j else j) ≡ j =
          ground arith in
        ap (lose_quiet now seen) stays ∙ lose_quiet-same now seen j h
  ]

  lose_quiet-Marked :
      (now : ℕ) (seen : List (ℕ × ℕ)) (j : Journal V) → Marked now (lose_quiet now seen j) seen
  unfolding lose_quiet
  lose_quiet-Marked now [] j = tt
  lose_quiet-Marked now ((a, t) ∷ seen) j = (
    λ quiet. lose_quiet-keeps_lost now seen a _ (ground (arith, lookup-insert a a true j.lost)),
    lose_quiet-Marked now seen _,
  )

  check_heard_twice :
      (now : ℕ) (j : Journal V) → check_heard now (check_heard now j) ≡ check_heard now j
  unfolding check_heard
  check_heard_twice now j =
      let once = lose_quiet now j.last_seen j in
      let again : lose_quiet now j.last_seen once ≡ once =
        lose_quiet-same now j.last_seen once (lose_quiet-Marked now j.last_seen j) in
      ground (
        arith,
        again,
        lose_quiet-bus_silent now j.last_seen j,
        lose_quiet-last_seen now j.last_seen j,
      )

  check_unheard_twice :
      (now : ℕ) (j : Journal V)
      → 0 < now
      → check_unheard now (check_unheard now j) ≡ check_unheard now j
  unfolding check_unheard
  check_unheard_twice now j later = ground arith

  check_unheard-last_seen :
      (now : ℕ) (j : Journal V) → (check_unheard now j).last_seen ≡ j.last_seen
  unfolding check_unheard
  check_unheard-last_seen now j = ground arith

  check_heard-last_seen : (now : ℕ) (j : Journal V) → (check_heard now j).last_seen ≡ j.last_seen
  unfolding check_heard
  check_heard-last_seen now j = ground (arith, lose_quiet-last_seen now j.last_seen j)

  check_liveness-unheard :
      (now : ℕ) (j : Journal V)
      → (length j.last_seen == 0) ≡ true
      → check_liveness now [] j ≡ check_unheard now j
  unfolding check_liveness
  check_liveness-unheard now j h = rw h refl

  check_liveness-heard :
      (now : ℕ) (j : Journal V)
      → (length j.last_seen == 0) ≡ false
      → check_liveness now [] j ≡ check_heard now j
  unfolding check_liveness
  check_liveness-heard now j h = rw h refl

  -- A second check at the same time, not Go's zero time, and with no device active changes nothing
  -- and logs nothing.
  pub check_liveness_twice :
      (now : ℕ) (j : Journal V) (later : 0 < now)
      → check_liveness now [] (check_liveness now [] j) ≡ check_liveness now [] j
  check_liveness_twice now j later = elim (Bool-cases (length j.last_seen == 0)) [
    | inl unheard ↦
        let once = check_liveness-unheard now j unheard in
        let still = rw (sym (check_unheard-last_seen now j)) at unheard in
        ap (check_liveness now []) once
        ∙ check_liveness-unheard now (check_unheard now j) still
        ∙ check_unheard_twice now j later
        ∙ sym once
    | inr heard ↦
        let once = check_liveness-heard now j heard in
        let still = rw (sym (check_heard-last_seen now j)) at heard in
        ap (check_liveness now []) once
        ∙ check_liveness-heard now (check_heard now j) still
        ∙ check_heard_twice now j
        ∙ sym once
  ]
