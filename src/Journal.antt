-- ===== src/Journal.antt =====
-- state/journal.go: the service history, but for its file. `log` is the events of the lines that
-- `append` hands to the writer, oldest first; an error of the writer changes nothing else. Times
-- are before the year 10000, from which on json.Marshal refuses them. An event's device and a
-- fault's source are kept as the numbers that the source prints in hexadecimal. Where the source
-- ranges over a map, the order is that of the association list.
pub mod Liveness
pub mod Known
pub mod Counters
pub mod Replay
pub mod Active
pub mod Writes
use Prim.Native.String.{String}
use infinid.Prelude.Assoc.{Eq, nat_eq, string_eq, lookup, insert, erase}
use infinid.Prelude.Float.{Float64, pos}
use infinid.Prelude.Time.{second, sub_time, is_zero, before}
use infinid.Protocol.Faults.{Clock, Fault}
use infinid.State.{holds}
use infinid.Prelude.{
  ℕ, ◌*◌, ◌↔◌, ◌≡◌, Bool, true, false, not, ◌&&◌, ◌||◌, Option, none, some, List, [], ◌∷◌, ◌++◌,
  ltb, ◌==◌, if◌then◌else◌, length, arith,
}

pub record FaultRecord : Type 0 where
  pub fault : Fault
  pub resolution : String

pub record Event (V : Type 0) : Type 0 where
  pub ts : ℕ
  pub kind : String
  pub device : Option ℕ
  pub fault : Option FaultRecord
  pub gap : String
  pub values : List (String × V)

-- `faultKey`: a code and a time to the second.
pub record FaultKey : Type 0 where
  pub code : ℕ
  pub time : Clock

abbrev pub clock_beq : Clock → Clock → Bool
clock_beq a b = a.days == b.days && a.hour == b.hour && a.minute == b.minute

abbrev pub key_beq : FaultKey → FaultKey → Bool
key_beq a b = a.code == b.code && clock_beq a.time b.time

pub key_beq_iff : (a b : FaultKey) → (key_beq a b ≡ true) ↔ (a ≡ b)
key_beq_iff a b = ground arith

instance abbrev pub key_eq : Eq FaultKey
key_eq = record { beq = key_beq; beq_iff = key_beq_iff }

abbrev pub fault_key : Fault → FaultKey
fault_key f = record { code = f.code; time = f.time }

abbrev pub device_lost_after : ℕ
device_lost_after = 30_000_000_000

abbrev pub bus_silent_after : ℕ
bus_silent_after = 60_000_000_000

pub record Journal (V : Type 0) : Type 0 where
  pub last_seen : List (ℕ × ℕ)
  pub lost : List (ℕ × Bool)
  pub bus_silent : Bool
  pub first_check : ℕ
  pub counters : List (String × V)
  pub faults : List (FaultKey × Fault)
  pub log : List (Event V)

-- The latest time at which anything was heard, from the one so far.
unfoldable pub newest_of : ℕ → List (ℕ × ℕ) → ℕ
newest_of newest [] = newest
newest_of newest ((addr, ts) ∷ seen) = newest_of (if before newest ts then ts else newest) seen

module _ {V : Type 0} where
  abbrev pub event : ℕ → String → Event V
  event ts kind = record {
    ts = ts;
    kind = kind;
    device = none;
    fault = none;
    gap = "";
    values = [];
  }

  -- Of an event that json.Marshal accepts; `noted` of Counters has the one that it may refuse.
  abbrev pub append : Event V → Journal V → Journal V
  append e j = record j { log = j.log ++ e ∷ [] }

  abbrev pub is_lost : ℕ → Journal V → Bool
  is_lost addr j = holds (lookup addr j.lost)

  abbrev pub recover_bus : ℕ → Journal V → Journal V
  recover_bus now j =
      if j.bus_silent
      then append (event now "bus_recovered") (record j { bus_silent = false })
      else j

  abbrev pub recover_device : ℕ → ℕ → Journal V → Journal V
  recover_device addr now j =
      if is_lost addr j
      then append (record (event now "device_recovered") { device = some addr })
          (record j { lost = erase addr j.lost })
      else j

  unfoldable pub note_device : ℕ → ℕ → Journal V → Journal V
  note_device addr now j =
      let r = recover_device addr now (recover_bus now j) in
      record r { last_seen = insert addr now r.last_seen }

  unfoldable pub note_devices : List ℕ → ℕ → Journal V → Journal V
  unfolding note_device
  note_devices [] now j = j
  note_devices (addr ∷ addrs) now j = note_devices addrs now (note_device addr now j)

  abbrev pub fall_silent : ℕ → Journal V → Journal V
  fall_silent now j = append (event now "bus_silent") (record j { bus_silent = true })

  abbrev pub lose : ℕ → ℕ → Journal V → Journal V
  lose addr now j =
      append (record (event now "device_lost") { device = some addr })
        (record j { lost = insert addr true j.lost })

  -- The loop over the devices that have been heard.
  unfoldable pub lose_quiet : ℕ → List (ℕ × ℕ) → Journal V → Journal V
  lose_quiet now [] j = j
  lose_quiet now ((addr, ts) ∷ seen) j = lose_quiet now seen (
      if not (is_lost addr j) && ltb device_lost_after (sub_time now ts)
      then lose addr now j
      else j)

  -- `CheckLiveness` after the active devices are noted: nothing heard yet, or something.
  unfoldable pub check_unheard : ℕ → Journal V → Journal V
  check_unheard now j =
      if is_zero j.first_check
      then record j { first_check = now }
      else if not j.bus_silent && ltb bus_silent_after (sub_time now j.first_check)
      then fall_silent now j
      else j

  unfoldable pub check_heard : ℕ → Journal V → Journal V
  unfolding newest_of lose_quiet
  check_heard now j =
      let newest = newest_of 0 j.last_seen in
      if not j.bus_silent && not (is_zero newest) && ltb bus_silent_after (sub_time now newest)
      then fall_silent now j
      else if j.bus_silent
      then j
      else lose_quiet now j.last_seen j

  unfoldable pub check_liveness : ℕ → List ℕ → Journal V → Journal V
  unfolding note_devices check_unheard check_heard
  check_liveness now active_now j =
      let noted = note_devices active_now now j in
      if length noted.last_seen == 0 then check_unheard now noted else check_heard now noted

  -- The faults that were known are wiped, one event for each.
  unfoldable pub wiped : ℕ → List (FaultKey × Fault) → List (Event V)
  wiped now [] = []
  wiped now ((k, f) ∷ fs) =
      record (event now "fault_history_wiped") {
        fault = some (record { fault = f; resolution = "manually_cleared" });
      }
      ∷ wiped now fs

  abbrev pub keep : String → String → Fault → ℕ → Journal V → Journal V
  keep kind resolution f now j =
      append
        (record (event now kind) { fault = some (record { fault = f; resolution = resolution }) })
        (record j { faults = insert (fault_key f) f j.faults })

  -- The body of the loop over the faults that were read.
  unfoldable pub note_fault : Fault → ℕ → Journal V → Journal V
  note_fault f now j = elim (lookup (fault_key f) j.faults) [
    | none ↦ keep "fault_seen" "" f now j
    | some prev ↦
        if prev.active && not f.active
        then keep "fault_cleared" "self_cleared" f now j
        else if ltb prev.count f.count
        then keep "fault_recurred" "" f now j
        else j
  ]

  unfoldable pub note_each : List Fault → ℕ → Journal V → Journal V
  unfolding note_fault
  note_each [] now j = j
  note_each (f ∷ fs) now j = note_each fs now (note_fault f now j)

  unfoldable pub note_faults : List Fault → ℕ → Journal V → Journal V
  unfolding note_each wiped
  note_faults current now j =
      if length current == 0 && ltb 0 (length j.faults)
      then record j { faults = []; log = j.log ++ wiped now j.faults }
      else note_each current now j
