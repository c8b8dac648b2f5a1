-- ===== src/Journal/Replay/Recovers.antt =====
-- What a journal's log gives back.
use Prim.Native.String.{String}
use mathlib.Core.Path.{subst}
use text.Mathlib.Text.{◌==◌ as str_eq}
use infinid.Journal.{
  Event, device_lost_after, bus_silent_after, Journal, key_eq, fault_key, event, append, is_lost,
  recover_bus, recover_device, note_device, note_devices, fall_silent, lose, lose_quiet, newest_of,
  check_unheard, check_heard, check_liveness, wiped, keep, note_fault, note_each, note_faults,
}
use infinid.Journal.Replay.{Recovered, is_kept, replay_event, replay, nothing}
use infinid.Journal.Replay.Wipe.{IsKeyed, insert-IsKeyed, replay-append, replay-wiped}
use infinid.Prelude.Assoc.{nat_eq, lookup, erase}
use infinid.Prelude.Time.{is_zero, sub_time}
use infinid.Protocol.Faults.{Fault}
use infinid.Prelude.{
  ℕ, ◌≡◌, refl, sym, ap, ◌∙◌, Bool, true, false, not, ◌&&◌, Option, none, some, List, [], ◌∷◌, ◌++◌,
  ltb, ◌==◌, length, if◌then◌else◌,
}

module _ {V : Type 0} where
  abbrev pub recovered_of : Journal V → Recovered V
  recovered_of j = record { counters = j.counters; faults = j.faults }

  -- The log gives the counters and the faults back, and every fault has its own key.
  pub record Recovers (j : Journal V) : Type 0 where
    pub replayed : replay j.log nothing ≡ recovered_of j
    pub keyed : IsKeyed j.faults

  pub append-Recovers :
      (e : Event V) (j k : Journal V)
      → Recovers j
      → IsKeyed k.faults
      → replay_event e (recovered_of j) ≡ recovered_of k
      → k.log ≡ j.log ++ e ∷ []
      → Recovers k
  unfolding replay
  append-Recovers e j k r keyed same log = record {
    replayed =
        ap (λ l. replay l nothing) log
        ∙ replay-append j.log (e ∷ []) nothing
        ∙ ap (replay_event e) r.replayed
        ∙ same;
    keyed = keyed;
  }

  -- What the log, the counters and the faults do not depend on.
  same-Recovers :
      (j k : Journal V)
      → Recovers j
      → k.log ≡ j.log
      → k.counters ≡ j.counters
      → k.faults ≡ j.faults
      → Recovers k
  same-Recovers j k r log counters faults = record {
    replayed =
        ap (λ l. replay l nothing) log
        ∙ r.replayed
        ∙ ap (λ c. record { counters = c; faults = j.faults }) (sym counters)
        ∙ ap (λ f. record { counters = k.counters; faults = f }) (sym faults);
    keyed = subst IsKeyed (sym faults) r.keyed;
  }

  -- A choice between journals.
  pub if-Recovers :
      (b : Bool) (j k : Journal V) → Recovers j → Recovers k → Recovers (if b then j else k)
  if-Recovers true j k r q = r
  if-Recovers false j k r q = q

  recover_bus-Recovers : (now : ℕ) (j : Journal V) → Recovers j → Recovers (recover_bus now j)
  unfolding replay_event
  recover_bus-Recovers now j r =
      let back = append (event now "bus_recovered") (record j { bus_silent = false }) in
      if-Recovers j.bus_silent back j
        (append-Recovers (event now "bus_recovered") j back r r.keyed refl refl) r

  recover_device-Recovers :
      (addr now : ℕ) (j : Journal V) → Recovers j → Recovers (recover_device addr now j)
  unfolding replay_event
  recover_device-Recovers addr now j r =
      let e = record (event {V = V} now "device_recovered") { device = some addr } in
      let back = append e (record j { lost = erase addr j.lost }) in
      if-Recovers (is_lost addr j) back j (append-Recovers e j back r r.keyed refl refl) r

  pub note_device-Recovers :
      (addr now : ℕ) (j : Journal V) → Recovers j → Recovers (note_device addr now j)
  unfolding note_device
  note_device-Recovers addr now j r =
      let k = recover_device addr now (recover_bus now j) in
      same-Recovers k _
        (recover_device-Recovers addr now (recover_bus now j) (recover_bus-Recovers now j r)) refl
        refl refl

  note_devices-Recovers :
      (addrs : List ℕ) (now : ℕ) (j : Journal V) → Recovers j → Recovers (note_devices addrs now j)
  unfolding note_devices
  note_devices-Recovers [] now j r = r
  note_devices-Recovers (addr ∷ addrs) now j r =
      note_devices-Recovers addrs now (note_device addr now j) (note_device-Recovers addr now j r)

  fall_silent-Recovers : (now : ℕ) (j : Journal V) → Recovers j → Recovers (fall_silent now j)
  unfolding replay_event
  fall_silent-Recovers now j r =
      append-Recovers (event now "bus_silent") j (fall_silent now j) r r.keyed refl refl

  lose-Recovers : (addr now : ℕ) (j : Journal V) → Recovers j → Recovers (lose addr now j)
  unfolding replay_event
  lose-Recovers addr now j r =
      append-Recovers (record (event now "device_lost") { device = some addr }) j (lose addr now j)
        r r.keyed refl refl

  lose_quiet-Recovers :
      (now : ℕ) (seen : List (ℕ × ℕ)) (j : Journal V)
      → Recovers j
      → Recovers (lose_quiet now seen j)
  unfolding lose_quiet
  lose_quiet-Recovers now [] j r = r
  lose_quiet-Recovers now ((addr, ts) ∷ seen) j r =
      lose_quiet-Recovers now seen _
        (step (not (is_lost addr j) && ltb device_lost_after (sub_time now ts)))
    where
      step : (b : Bool) → Recovers (if b then lose addr now j else j)
      step true = lose-Recovers addr now j r
      step false = r

  pub check_liveness-Recovers :
      (now : ℕ) (active : List ℕ) (j : Journal V)
      → Recovers j
      → Recovers (check_liveness now active j)
  unfolding check_liveness check_unheard check_heard
  check_liveness-Recovers now active j r =
      let n = note_devices active now j in
      let noted = note_devices-Recovers active now j r in
      let silent = fall_silent-Recovers now n noted in
      let late = λ (since : ℕ). ltb bus_silent_after (sub_time now since) in
      let newest = newest_of 0 n.last_seen in
      let quiet = lose_quiet now n.last_seen n in
      let first = record n { first_check = now } in
      if-Recovers (length n.last_seen == 0) (check_unheard now n) (check_heard now n)
        (if-Recovers (is_zero n.first_check) first
          (if not n.bus_silent && late n.first_check then fall_silent now n else n)
          (same-Recovers n first noted refl refl refl)
          (if-Recovers (not n.bus_silent && late n.first_check) (fall_silent now n) n silent noted))
        (if-Recovers (not n.bus_silent && not (is_zero newest) && late newest) (fall_silent now n)
          (if n.bus_silent then n else quiet) silent
          (if-Recovers n.bus_silent n quiet noted (lose_quiet-Recovers now n.last_seen n noted)))

  keep-Recovers :
      (kind resolution : String) (f : Fault) (now : ℕ) (j : Journal V)
      → Recovers j
      → is_kept kind ≡ true
      → str_eq kind "power_counters" ≡ false
      → Recovers (keep kind resolution f now j)
  unfolding replay_event
  keep-Recovers kind resolution f now j r kept other =
      let e = record (event {V = V} now kind) {
        fault = some (record { fault = f; resolution = resolution });
      } in
      append-Recovers e j (keep kind resolution f now j) r (insert-IsKeyed f j.faults r.keyed)
        (rw (kept, other) refl) refl

  note_fault-Recovers :
      (f : Fault) (now : ℕ) (j : Journal V) → Recovers j → Recovers (note_fault f now j)
  unfolding note_fault
  note_fault-Recovers f now j r = by_known (lookup (fault_key f) j.faults)
    where
      by_known :
          (o : Option Fault)
          → Recovers (elim o as (λ x. Journal V) [
            | none ↦ keep "fault_seen" "" f now j
            | some prev ↦
                if prev.active && not f.active
                then keep "fault_cleared" "self_cleared" f now j
                else if ltb prev.count f.count
                then keep "fault_recurred" "" f now j
                else j
          ])
      by_known none = keep-Recovers "fault_seen" "" f now j r refl refl
      by_known (some prev) =
          if-Recovers (prev.active && not f.active) (keep "fault_cleared" "self_cleared" f now j)
            (if ltb prev.count f.count then keep "fault_recurred" "" f now j else j)
            (keep-Recovers "fault_cleared" "self_cleared" f now j r refl refl)
            (if-Recovers (ltb prev.count f.count) (keep "fault_recurred" "" f now j) j
              (keep-Recovers "fault_recurred" "" f now j r refl refl) r)

  note_each-Recovers :
      (fs : List Fault) (now : ℕ) (j : Journal V) → Recovers j → Recovers (note_each fs now j)
  unfolding note_each
  note_each-Recovers [] now j r = r
  note_each-Recovers (f ∷ fs) now j r =
      note_each-Recovers fs now (note_fault f now j) (note_fault-Recovers f now j r)

  pub note_faults-Recovers :
      (fs : List Fault) (now : ℕ) (j : Journal V) → Recovers j → Recovers (note_faults fs now j)
  unfolding note_faults
  note_faults-Recovers fs now j r =
      let wipe = record j { faults = []; log = j.log ++ wiped now j.faults } in
      if-Recovers (length fs == 0 && ltb 0 (length j.faults)) wipe (note_each fs now j)
        (record {
          replayed =
              replay-append j.log (wiped now j.faults) nothing
              ∙ ap (replay (wiped now j.faults)) r.replayed
              ∙ replay-wiped now j.faults j.counters r.keyed;
          keyed = tt;
        })
        (note_each-Recovers fs now j r)
