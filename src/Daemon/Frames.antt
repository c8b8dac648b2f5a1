-- ===== src/Daemon/Frames.antt =====
-- cmd/infinid/main.go, `run`: one frame through the daemon, and one tick. What the decoder
-- counted, the time and the fate of the port's write are arguments. Logging, with the counter of
-- its minute's frames, and the line that the recorder hands to the capped writer are left out.
pub mod Invariant
pub mod Sound
use infinid.Bus.Frame.{Frame}
use infinid.Capture.{Recorder, Record, add}
use infinid.Daemon.Counters.{Tracker, Tracked, track_counter}
use infinid.Journal.{Journal, note_device, note_faults}
use infinid.Prelude.Float.{Float64}
use infinid.Prelude.Run.{Run, ret, panic, ◌>>=◌}
use infinid.Protocol.Decode.{decode}
use infinid.Protocol.Faults.{Fault, decode_faults}
use infinid.Reading.{Reading}
use infinid.Sam.{Scheduler, note_frame, tick}
use infinid.State.{State, apply}
use infinid.Prelude.{ℕ, ◌+◌, ◌-◌, ◌%◌, ◌^◌, Bool, Option, none, some, List, [], ◌∷◌}

-- The daemon, with the locals of `run` that outlive a round.
pub record Daemon (F : Float64) : Type 0 where
  pub recorder : Recorder
  pub state : State F.Carrier
  pub tracker : Tracker F.Carrier
  pub journal : Option (Journal F.Carrier)
  pub scheduler : Option Scheduler
  pub frames : ℕ
  pub unknown_frames : ℕ
  pub crc_resyncs : ℕ
  pub last_frame : ℕ
  pub sam_failures : ℕ
  pub last_resyncs : ℕ
  pub last_sched_failures : ℕ

-- A sum of uint64s.
abbrev pub add64 : ℕ → ℕ → ℕ
add64 a b = (a + b) % 2 ^ 64

abbrev pub record_of : Frame → ℕ → Record
record_of f now = record {
  ts = now;
  src = f.src;
  dst = f.dst;
  op = f.op;
  payload = f.payload;
  raw = f.raw;
}

abbrev pub unknown_by : {V : Type 0} → Option (List (Reading V)) → ℕ
unknown_by none = 1
unknown_by (some rs) = 0

abbrev pub readings_or_none : {V : Type 0} → Option (List (Reading V)) → List (Reading V)
readings_or_none none = []
readings_or_none (some rs) = rs

abbrev pub faults_noted : {V : Type 0} → Option (List Fault) → ℕ → Journal V → Journal V
faults_noted none now j = j
faults_noted (some fs) now j = note_faults fs now j

-- What the two goroutines do, in the order in which they get the lock; `failed` is an error of
-- `Next`, at which `run` returns, with what the decoder has counted by then.
pub data Round : Type 0 where
  frame : Frame → ℕ → ℕ → Bool → Round
  timer : ℕ → Bool → Round
  failed : ℕ → Round

module _ {F : Float64} where
  -- The resyncs since the last look go into the running total, as a difference of uint64s.
  abbrev pub resynced : ℕ → Daemon F → ℕ
  resynced resyncs d = add64 d.crc_resyncs ((resyncs + 2 ^ 64 - d.last_resyncs) % 2 ^ 64)

  -- The counters, under the lock.
  unfoldable pub count_frame : ℕ → ℕ → Option (List (Reading F.Carrier)) → Daemon F → Daemon F
  count_frame now resyncs readings d = record d {
    frames = add64 d.frames 1;
    unknown_frames = add64 d.unknown_frames (unknown_by readings);
    crc_resyncs = resynced resyncs d;
    last_frame = now;
    last_resyncs = resyncs;
  }

  abbrev pub tracked : Reading F.Carrier → ℕ → Daemon F → Option (Journal F.Carrier) → Daemon F
  tracked r now d none = d
  tracked r now d (some j) =
      let t = track_counter F r now (d.tracker, j) in record d { tracker = t.0; journal = some t.1 }

  -- The loop over the readings.
  unfoldable pub apply_readings : List (Reading F.Carrier) → ℕ → Daemon F → Daemon F
  apply_readings [] now d = d
  apply_readings (r ∷ rs) now d =
      apply_readings rs now (tracked r now (record d { state = apply F r d.state }) d.journal)

  abbrev pub journaled : Frame → ℕ → Daemon F → Option (Journal F.Carrier) → Daemon F
  journaled f now d none = d
  journaled f now d (some j) = record d {
    journal = some (note_device f.src now (faults_noted (decode_faults f) now j));
  }

  -- The scheduler after a tick: its failures since the last look go into the running total.
  abbrev pub scheduled : Daemon F → Scheduler → Daemon F
  scheduled d s = record d {
    scheduler = some s;
    sam_failures = d.sam_failures + s.failures - d.last_sched_failures;
    last_sched_failures = s.failures;
  }

  -- A round of the ticker.
  abbrev pub ticked : ℕ → Bool → Daemon F → Option Scheduler → Run (Daemon F)
  ticked now written d none = ret d
  ticked now written d (some s) = do t ← tick written now s; ret (scheduled d t.0)

  unfoldable pub tick_round : ℕ → Bool → Daemon F → Run (Daemon F)
  tick_round now written d = ticked now written d d.scheduler

  abbrev pub heard : Frame → ℕ → Bool → Daemon F → Option Scheduler → Run (Daemon F)
  heard f now written d none = ret d
  heard f now written d (some s) = do
    t ← tick written now (note_frame f now s)
    ret (scheduled d t.0)

  -- A round of the frame loop.
  unfoldable pub frame_round : Frame → ℕ → ℕ → Bool → Daemon F → Run (Daemon F)
  unfolding count_frame apply_readings
  frame_round f now resyncs written d = do
    readings ← decode F f now
    let recorded = record d { recorder = add (record_of f now) d.recorder }
    let counted = count_frame now resyncs readings recorded
    let applied = apply_readings (readings_or_none readings) now counted
    let noted = journaled f now applied applied.journal
    heard f now written noted noted.scheduler

  unfoldable pub round : Round → Daemon F → Run (Daemon F)
  unfolding frame_round tick_round
  round (frame f now resyncs written) d = frame_round f now resyncs written d
  round (timer now written) d = tick_round now written d
  round (failed resyncs) d = ret (record d { crc_resyncs = resynced resyncs d })

  unfoldable pub rounds : List Round → Daemon F → Run (Daemon F)
  unfolding round
  rounds [] d = ret d
  rounds (r ∷ rs) d = do d' ← round r d; rounds rs d'
