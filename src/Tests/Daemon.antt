-- ===== src/Tests/Daemon.antt =====
-- A daemon from its start: rounds, the journal's restarts and the capture file.
use Prim.Native.String.{String}
use infinid.Bus.Crc.{Bytes}
use infinid.Bus.Frame.{encode, seal, unsealed, Frame, dev_wall_control, op_ack06}
use infinid.Daemon.Capped.{CappedWriter, fitting, writes, writes_lem}
use infinid.Daemon.Counters.{Tracker, budget, track_all, track_all-budget}
use infinid.Daemon.Frames.{Daemon, rounds}
use infinid.Daemon.Frames.Invariant.{IsSound}
use infinid.Daemon.Connection.{Turn, receives, ticks, loop, run, serve}
use infinid.Daemon.Connection.Clean.{Sending, turns_of, rounds_of, loop-rounds}
use infinid.Daemon.Connection.Stream.{Lasts, run-IsSound, serve-Lasts}
use infinid.Bus.Decoder.{Read, new_decoder}
use infinid.Bus.Decoder.Receive.{IsSent}
use infinid.Bus.Crc.{crc16_arc}
use infinid.Daemon.ZoneNames.{parse_zone_names, join, parse_zone_names-join}
use infinid.Journal.{Journal}
use infinid.Journal.Counters.{is_marshalled}
use infinid.Journal.Replay.{open_journal, replay}
use infinid.Journal.Replay.Runs.{
  Op, heard, checked, counted, started, read, restarted, steps, open_journal-steps,
}
use infinid.Prelude.Float.{pos}
use infinid.Prelude.Run.{Returns}
use infinid.Protocol.Faults.{Fault}
use infinid.Reading.{Reading}
use infinid.Sam.{Scheduler}
use infinid.State.{new}
use infinid.State.Slots.{new-IsSlotted}
use infinid.Tests.{Value, int, terms}
use infinid.Prelude.{
  ℕ, ◌++◌, take, drop, ◌≡◌, ◌≤◌, refl, true, false, none, some, List, [], ◌∷◌, length, All, arith,
}

abbrev cycles : String → ℕ → Reading Value
cycles name n = record {
  owner = 0x5201;
  reg = 0x000310;
  zone = 0;
  field = name;
  value = int (pos n);
  text = "";
  ts = 7;
}

abbrev both_counters : List (String × Value)
both_counters = ("idu_power_cycles", int (pos 3)) ∷ ("odu_power_cycles", int (pos 4)) ∷ []

abbrev fault_seen : Fault
fault_seen = record {
  code = 45;
  source = 0x52;
  time = record { days = 4900; hour = 23; minute = 59 };
  active = true;
  count = 3;
}

abbrev ops : List (Op terms)
ops =
    heard 0x2001 100
    ∷ started both_counters 200
    ∷ counted both_counters 201
    ∷ read (fault_seen ∷ []) 300
    ∷ restarted
    ∷ checked (0x2001 ∷ []) 400
    ∷ read [] 500
    ∷ []

open_journal-steps_example :
    ((open_journal (steps terms ops (open_journal [])).log).counters
      ≡ (steps terms ops (open_journal [])).counters)
    × ((open_journal (steps terms ops (open_journal [])).log).faults
        ≡ (steps terms ops (open_journal [])).faults)
unfolding is_marshalled
open_journal-steps_example =
    open_journal-steps terms ops (tt, (tt, (refl, (tt, (tt, (tt, (tt, tt)))))))

abbrev journal : Journal Value
journal = record {
  last_seen = [];
  lost = [];
  bus_silent = false;
  first_check = 0;
  counters = [];
  faults = [];
  log = [];
}

abbrev tracker : Tracker Value
tracker = record { counters = []; classified = false }

abbrev tracked_readings : List (Reading Value × ℕ)
tracked_readings = (cycles "idu_power_cycles" 3, 7) ∷ (cycles "odu_power_cycles" 4, 8) ∷ []

track_all-budget_example :
    budget terms (track_all terms tracked_readings (tracker, journal))
    ≡ budget terms (tracker, journal)
track_all-budget_example = track_all-budget terms tracked_readings (tracker, journal)

abbrev writer : CappedWriter
writer = record { file = 1 ∷ []; remain = 3; stopped = false }

abbrev lines : List (List ℕ)
lines = (5 ∷ 6 ∷ []) ∷ (7 ∷ 8 ∷ []) ∷ (9 ∷ []) ∷ []

writes_lem_example : ((writes lines writer).file ≡ 1 ∷ 5 ∷ 6 ∷ []) × (length (fitting 3 lines) ≤ 3)
writes_lem_example = writes_lem lines writer refl

abbrev den : List ℕ
den = b'd' ∷ b'e' ∷ b'n' ∷ []

abbrev attic : List ℕ
attic = b'a' ∷ b't' ∷ b't' ∷ b'i' ∷ b'c' ∷ b'_' ∷ b'2' ∷ []

parse_zone_names-join_example : parse_zone_names (join (den ∷ attic ∷ [])) ≡ some (den ∷ attic ∷ [])
parse_zone_names-join_example = parse_zone_names-join den (attic ∷ []) refl

-- The answer of zone 2's sensor.
abbrev sensor : Frame
sensor = record {
  dst = dev_wall_control;
  src = 0x2201;
  op = op_ack06;
  payload = 0x00 ∷ 0x04 ∷ 0x1e ∷ 0 ∷ 0 ∷ 0 ∷ 0 ∷ 0 ∷ 0 ∷ 0 ∷ 0 ∷ 0 ∷ 0x04 ∷ 0x60 ∷ 0 ∷ 45 ∷ [];
  raw = [];
}

sensor-Bytes : Bytes sensor.payload
sensor-Bytes = ground arith

abbrev scheduler : Scheduler
scheduler = record {
  targets =
      record {
        config = record {
          reg = record { byte0 = 0x00; byte1 = 0x3b; byte2 = 0x02 };
          interval = 10_000_000_000;
        };
        due = 0;
        backoff = 0;
      }
      ∷ [];
  pending = none;
  sent_at = 0;
  last_send = 0;
  failures = 0;
}

-- After a first connection of the port, in which the scheduler counted five failures.
abbrev daemon : Daemon terms
daemon = record {
  recorder = record { ring = []; max = 2 };
  state = record { sys = []; zones = (1, []) ∷ []; mask_only = [] };
  tracker = tracker;
  journal = some journal;
  scheduler = some scheduler;
  frames = 0;
  unknown_frames = 0;
  crc_resyncs = 0;
  last_frame = 0;
  sam_failures = 5;
  last_resyncs = 0;
  last_sched_failures = 0;
}

daemon-Lasts : Lasts daemon
unfolding new replay is_marshalled
daemon-Lasts = record {
  slotted = new-IsSlotted terms;
  finite = refl;
  journaled = record { replayed = refl; keyed = tt };
}

-- The wire of the sensor's frame, in two reads, and then an error.
abbrev wire : List ℕ
wire =
    0x20 ∷ 0x01 ∷ 0x22 ∷ 0x01 ∷ 16 ∷ 0 ∷ 0 ∷ op_ack06 ∷ 0x00 ∷ 0x04 ∷ 0x1e ∷ 0 ∷ 0 ∷ 0 ∷ 0 ∷ 0 ∷ 0
    ∷ 0 ∷ 0 ∷ 0 ∷ 0x04 ∷ 0x60 ∷ 0 ∷ 45 ∷ 63 ∷ 249 ∷ []

abbrev reads : List (Read ℕ)
reads =
    record { bytes = take 5 wire; error = none } ∷ record { bytes = drop 5 wire; error = none } ∷ []

abbrev fails : List (Read ℕ)
fails = record { bytes = []; error = some 1 } ∷ []

abbrev turns : List Turn
turns =
    ticks 100_000_000_000 true ∷ receives 101_000_000_000 false ∷ receives 102_000_000_000 true ∷ []

reads-Bytes : All (λ r. Bytes r.bytes) (reads ++ fails)
reads-Bytes = (ground arith, (ground arith, (tt, tt)))

run-IsSound_example : Returns (IsSound 5) (run true turns (reads ++ fails) daemon)
run-IsSound_example = run-IsSound terms true turns (reads ++ fails) daemon reads-Bytes daemon-Lasts

serve-Lasts_example :
    Returns
      (λ d. Lasts d × (5 ≤ d.sam_failures))
      (serve true ((turns, reads ++ fails) ∷ (turns, reads) ∷ []) daemon)
serve-Lasts_example =
    serve-Lasts terms true ((turns, reads ++ fails) ∷ (turns, reads) ∷ []) daemon
      (reads-Bytes, ((ground arith, (ground arith, tt)), tt)) daemon-Lasts

abbrev sending : Sending
sending = record { sent = sensor; wire = wire; now = 101_000_000_000; written = true }

sending-IsSent : IsSent sensor wire
unfolding encode seal unsealed crc16_arc
sending-IsSent = record {
  valid = record {
    dst_word = omega arith;
    src_word = omega arith;
    op_byte = omega arith;
    payload_bytes = sensor-Bytes;
    payload_fits = omega arith;
  };
  not_zero = omega arith;
  encoded = refl;
}

loop-rounds_example :
    loop (turns_of (sending ∷ [])) reads new_decoder daemon
    ≡ rounds (rounds_of 0 (sending ∷ [])) daemon
unfolding new_decoder
loop-rounds_example =
    loop-rounds (sending ∷ []) reads new_decoder daemon (sending-IsSent, tt)
      (omega arith, (omega arith, tt)) refl
