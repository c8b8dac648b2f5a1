-- ===== src/Daemon/Frames/Invariant.antt =====
-- The daemon's invariant, and the parts of a round that keep it.
use infinid.Bus.Frame.{Frame}
use infinid.Daemon.Counters.{Tracker, Tracked, is_power_counter, track_counter, note_both}
use infinid.Daemon.Frames.{
  Daemon, faults_noted, tracked, apply_readings, journaled, scheduled, ticked,
}
use infinid.Journal.{Journal}
use infinid.Journal.Counters.{is_marshalled, classify_gap}
use infinid.Protocol.Values.Sound.{IsFinite, IsSound as IsReading}
use Prim.Native.String.{String}
use infinid.Journal.Replay.Recovers.{
  Recovers, note_device-Recovers, note_faults-Recovers, if-Recovers,
}
use infinid.Journal.Replay.Runs.{note_power_counters-Recovers, classify_gap-Recovers}
use infinid.Prelude.Assoc.{string_eq, insert}
use infinid.Prelude.Float.{Float64}
use infinid.Prelude.Run.{ret, ◌>>=◌, Returns, returns}
use infinid.Protocol.Faults.{Fault, decode_faults}
use infinid.Reading.{Reading}
use infinid.Sam.{Scheduler, tick}
use infinid.Sam.Invariant.{IsValid}
use infinid.Sam.ReadOnly.{tick-IsValid}
use infinid.Sam.Requests.{tick_total}
use infinid.State.{apply}
use infinid.State.Slots.{IsSlotted, apply-IsSlotted}
use infinid.Prelude.{
  ℕ, ◌+◌, ◌≡◌, refl, Bool, true, false, not, ◌==◌, length, Option, none, some, List, [], ◌∷◌, All,
  if◌then◌else◌, arith,
}

abbrev pub IfJournal : {V : Type 0} → Option (Journal V) → Type 0
IfJournal none = Unit {0}
IfJournal (some j) = Recovers j

abbrev pub IfScheduler : Option Scheduler → Type 0
IfScheduler none = Unit {0}
IfScheduler (some s) = IsValid s

abbrev pub IfCounted : ℕ → Option Scheduler → Type 0
IfCounted n none = Unit {0}
IfCounted n (some s) = s.failures ≡ n

-- The zones of the state are 1 to 8; the tracked counters are neither NaN nor infinite; the
-- journal's log gives its counters and faults back; the scheduler is valid; and the running total
-- of failures is that of the earlier runs and this one's.
pub record IsSound {F : Float64} (base : ℕ) (d : Daemon F) : Type 0 where
  pub slotted : IsSlotted F d.state
  pub finite : is_marshalled F d.tracker.counters ≡ true
  pub journaled : IfJournal d.journal
  pub scheduled : IfScheduler d.scheduler
  pub current : IfCounted d.last_sched_failures d.scheduler
  pub accounted : d.sam_failures ≡ base + d.last_sched_failures

module _ (F : Float64) (base : ℕ) where
  -- The counters can be journaled, and the journal's log gives its own back.
  abbrev IsTracked : Tracked F → Type 0
  IsTracked (t, j) = (is_marshalled F t.counters ≡ true) × Recovers j

  if-IsTracked :
      (b : Bool) (x y : Tracked F) → IsTracked x → IsTracked y → IsTracked (if b then x else y)
  if-IsTracked true x y h k = h
  if-IsTracked false x y h k = k

  is_marshalled-insert :
      (k : String) (v : F.Carrier) (m : List (String × F.Carrier))
      → IsFinite F v
      → is_marshalled F m ≡ true
      → is_marshalled F (insert k v m) ≡ true
  unfolding is_marshalled insert
  is_marshalled-insert k v [] h all = ground arith
  is_marshalled-insert k v ((i, w) ∷ m) h all = ground (arith, is_marshalled-insert k v m h)

  track_counter-IsTracked :
      (r : Reading F.Carrier) (now : ℕ) (t : Tracker F.Carrier) (j : Journal F.Carrier)
      → IsFinite F r.value
      → IsTracked (t, j)
      → IsTracked (track_counter F r now (t, j))
  unfolding track_counter
  track_counter-IsTracked r now t j number (finite, h) =
      let vals = insert r.field r.value t.counters in
      let gap = if t.classified then j else classify_gap F vals now j in
      let all = is_marshalled-insert r.field r.value t.counters number finite in
      if-IsTracked (not (is_power_counter F r.field)) (t, j) _ (finite, h)
        (if-IsTracked (length vals == 2)
          (record { counters = vals; classified = true }, note_both F vals t.classified now j)
          (record t { counters = vals }, j)
          (
            all,
            note_power_counters-Recovers F vals now gap all (
                if-Recovers t.classified j (classify_gap F vals now j) h
                  (classify_gap-Recovers F vals now j h)),
          )
          (all, h))

  pub apply_readings-IsSound :
      (rs : List (Reading F.Carrier)) (now : ℕ) (d : Daemon F)
      → All (IsReading F) rs
      → IsSound base d
      → IsSound base (apply_readings rs now d)
  unfolding apply_readings
  apply_readings-IsSound [] now d good h = h
  apply_readings-IsSound (r ∷ rs) now d ((low, number), good) h =
      apply_readings-IsSound rs now _ good (kept d.journal h.journaled)
    where
      kept :
          (o : Option (Journal F.Carrier))
          → IfJournal o
          → IsSound base (tracked r now (record d { state = apply F r d.state; journal = o }) o)
      kept none k = record {
        slotted = apply-IsSlotted F r d.state low h.slotted;
        finite = h.finite;
        journaled = tt;
        scheduled = h.scheduled;
        current = h.current;
        accounted = h.accounted;
      }
      kept (some j) k = record {
        slotted = apply-IsSlotted F r d.state low h.slotted;
        finite = (track_counter-IsTracked r now d.tracker j number (h.finite, k)).0;
        journaled = (track_counter-IsTracked r now d.tracker j number (h.finite, k)).1;
        scheduled = h.scheduled;
        current = h.current;
        accounted = h.accounted;
      }

  faults_noted-Recovers :
      (o : Option (List Fault)) (now : ℕ) (j : Journal F.Carrier)
      → Recovers j
      → Recovers (faults_noted o now j)
  faults_noted-Recovers none now j h = h
  faults_noted-Recovers (some fs) now j h = note_faults-Recovers fs now j h

  pub journaled-IsSound :
      (f : Frame) (now : ℕ) (d : Daemon F) (o : Option (Journal F.Carrier))
      → IfJournal o
      → IsSound base d
      → IsSound base (journaled f now d o)
  journaled-IsSound f now d none k h = h
  journaled-IsSound f now d (some j) k h = record {
    slotted = h.slotted;
    finite = h.finite;
    journaled =
        note_device-Recovers f.src now (faults_noted (decode_faults f) now j)
          (faults_noted-Recovers (decode_faults f) now j k);
    scheduled = h.scheduled;
    current = h.current;
    accounted = h.accounted;
  }

  scheduled-IsSound :
      (d : Daemon F) (s : Scheduler) → IsSound base d → IsValid s → IsSound base (scheduled d s)
  scheduled-IsSound d s h v = record {
    slotted = h.slotted;
    finite = h.finite;
    journaled = h.journaled;
    scheduled = v;
    current = refl;
    accounted = omega (arith, h.accounted);
  }

  -- A tick of a valid scheduler, in the daemon.
  pub tick-IsSound :
      (now : ℕ) (written : Bool) (d : Daemon F) (s : Scheduler)
      → IsSound base d
      → IsValid s
      → Returns (IsSound base) (do t ← tick written now s; ret (scheduled d t.0))
  tick-IsSound now written d s h v =
      let (s', out, step) = tick_total written now s in
      record {
        value = scheduled d s';
        eq = rw step refl;
        holds = scheduled-IsSound d s' h (tick-IsValid written now s s' out v step);
      }

  pub ticked-IsSound :
      (now : ℕ) (written : Bool) (d : Daemon F) (o : Option Scheduler)
      → IfScheduler o
      → IsSound base d
      → Returns (IsSound base) (ticked now written d o)
  ticked-IsSound now written d none v h = returns d h
  ticked-IsSound now written d (some s) v h = tick-IsSound now written d s h v

  -- The running total of resyncs is no part of the invariant.
  pub resynced-IsSound :
      (n : ℕ) (d : Daemon F) → IsSound base d → IsSound base (record d { crc_resyncs = n })
  resynced-IsSound n d h = record {
    slotted = h.slotted;
    finite = h.finite;
    journaled = h.journaled;
    scheduled = h.scheduled;
    current = h.current;
    accounted = h.accounted;
  }
