-- ===== src/Journal/Replay.antt =====
-- state/journal.go, `OpenJournal`: what a restart recovers from the log. The file's lines are
-- read as the events that they were written from; a line that is no event is skipped there. The
-- source of a fault, two hexadecimal digits in the file, is the byte that it is parsed back to.
pub mod Wipe
pub mod Recovers
pub mod Runs
use Prim.Native.String.{String}
use text.Mathlib.Text.{◌==◌ as str_eq}
use infinid.Journal.{Event, FaultRecord, FaultKey, key_eq, fault_key, Journal}
use infinid.Prelude.Assoc.{insert, erase}
use infinid.Protocol.Faults.{Fault}
use infinid.Prelude.{ℕ, Bool, true, false, ◌||◌, Option, none, some, List, [], ◌∷◌, if◌then◌else◌}

pub record Recovered (V : Type 0) : Type 0 where
  pub counters : List (String × V)
  pub faults : List (FaultKey × Fault)

abbrev pub is_kept : String → Bool
is_kept kind =
    str_eq kind "fault_seen" || (str_eq kind "fault_recurred" || str_eq kind "fault_cleared")

module _ {V : Type 0} where
  abbrev replay_counters : Event V → Recovered V → Recovered V
  replay_counters e r =
      if str_eq e.kind "power_counters" then record r { counters = e.values } else r

  abbrev replay_fault : String → Option FaultRecord → Recovered V → Recovered V
  replay_fault kind none r = r
  replay_fault kind (some rec) r =
      if is_kept kind
      then record r { faults = insert (fault_key rec.fault) rec.fault r.faults }
      else if str_eq kind "fault_history_wiped"
      then record r { faults = erase (fault_key rec.fault) r.faults }
      else r

  unfoldable pub replay_event : Event V → Recovered V → Recovered V
  replay_event e r = replay_fault e.kind e.fault (replay_counters e r)

  unfoldable pub replay : List (Event V) → Recovered V → Recovered V
  unfolding replay_event
  replay [] r = r
  replay (e ∷ es) r = replay es (replay_event e r)

  abbrev pub nothing : Recovered V
  nothing = record { counters = []; faults = [] }

  -- The journal on a log that is there already.
  unfoldable pub open_journal : List (Event V) → Journal V
  unfolding replay
  open_journal existing =
      let r = replay existing nothing in
      record {
        last_seen = [];
        lost = [];
        bus_silent = false;
        first_check = 0;
        counters = r.counters;
        faults = r.faults;
        log = existing;
      }
