-- ===== src/Sam/Tests.antt =====
-- A scheduler with one register, from its first request to the reply.
use infinid.Bus.Crc.{crc16_arc}
use infinid.Bus.Frame.{Frame, dev_wall_control, dev_sam, op_read, op_ack06, decode, seal, unsealed}
use infinid.Prelude.Run.{ret}
use infinid.Sam.{Config, Target, Scheduler, new, tick, note_frame}
use infinid.Sam.Invariant.{HasBytes, IsValid, new-IsValid}
use infinid.Sam.Pacing.{Runs, Spaced, ticks, ticked, rests, quiet, writes, Runs-Spaced}
use infinid.Sam.Progress.{tick_progress, tick_unblocks}
use infinid.Sam.ReadOnly.{IsRead, tick-IsRead}
use infinid.Sam.Replies.{IsReply, tick-note_frame}
use infinid.Prelude.{
  ℕ, ◌+◌, ◌<◌, ◌≡◌, ◌≢◌, ◌⊎◌, refl, true, Option, none, some, List, [], ◌∷◌, get_elem?, arith,
}

abbrev config : Config
config = record {
  reg = record { byte0 = 0x00; byte1 = 0x3b; byte2 = 0x02 };
  interval = 10_000_000_000;
}

abbrev target : ℕ → ℕ → Target
target due backoff = record { config = config; due = due; backoff = backoff }

abbrev at_rest : Scheduler
at_rest = record {
  targets = target 0 0 ∷ [];
  pending = none;
  sent_at = 0;
  last_send = 0;
  failures = 0;
}

-- After the request that a tick writes at 100 s, after the one that it writes at 110 s when no
-- reply has come, and the time of each.
abbrev first_tick : ℕ
first_tick = 100_000_000_000

abbrev second_tick : ℕ
second_tick = 110_000_000_000

abbrev asked : Scheduler
asked = record {
  targets = target 0 0 ∷ [];
  pending = some 0;
  sent_at = first_tick;
  last_send = first_tick;
  failures = 0;
}

abbrev wire : List ℕ
wire = 0x20 ∷ 0x01 ∷ 0x92 ∷ 0x01 ∷ 3 ∷ 0 ∷ 0 ∷ 0x0b ∷ 0x00 ∷ 0x3b ∷ 0x02 ∷ 45 ∷ 122 ∷ []

asks : tick true first_tick at_rest ≡ ret (asked, some wire)
unfolding tick seal unsealed crc16_arc
asks = refl

reg-HasBytes : HasBytes config.reg
reg-HasBytes = record { byte0 = omega arith; byte1 = omega arith; byte2 = omega arith }

at_rest-IsValid : IsValid at_rest
unfolding new
at_rest-IsValid = new-IsValid (config ∷ []) (reg-HasBytes, tt)

tick-IsRead_example : (f : Frame) × (decode wire ≡ some f) × IsRead at_rest f
tick-IsRead_example = tick-IsRead true first_tick at_rest asked wire at_rest-IsValid asks

-- The target has backed off, so the second tick writes nothing: the timeout is counted.
abbrev timed_out : Scheduler
timed_out = record {
  targets = target 114_000_000_000 4_000_000_000 ∷ [];
  pending = none;
  sent_at = first_tick;
  last_send = first_tick;
  failures = 1;
}

times_out : tick true second_tick asked ≡ ret (timed_out, none)
unfolding tick
times_out = refl

abbrev third_tick : ℕ
third_tick = 115_000_000_000

abbrev asked_again : Scheduler
asked_again = record {
  targets = target 114_000_000_000 4_000_000_000 ∷ [];
  pending = some 0;
  sent_at = third_tick;
  last_send = third_tick;
  failures = 1;
}

asks_again : tick true third_tick timed_out ≡ ret (asked_again, some wire)
unfolding tick seal unsealed crc16_arc
asks_again = refl

run : Runs at_rest (first_tick ∷ third_tick ∷ []) asked_again
run = writes (ticks true first_tick) wire (ticked true first_tick (some wire) asks) (
    quiet (ticks true second_tick) (ticked true second_tick none times_out)
      (writes (ticks true third_tick) wire (ticked true third_tick (some wire) asks_again) rests))

Runs-Spaced_example : Spaced 0 (first_tick ∷ third_tick ∷ [])
Runs-Spaced_example = Runs-Spaced run

tick_unblocks_example :
    (s' : Scheduler) × (out : Option (List ℕ)) × (tick true second_tick asked ≡ ret (s', out))
    × (0 < s'.failures)
    × ((s'.pending ≡ none) ⊎ ((s'.sent_at ≡ second_tick) × (out ≢ none)))
tick_unblocks_example = tick_unblocks true second_tick 0 asked refl (omega arith)

tick_progress_example :
    (s' : Scheduler) × (bytes : List ℕ) × (j : ℕ) × (tick true first_tick at_rest
      ≡ ret (s', some bytes))
    × (s'.pending ≡ some j)
    × (s'.sent_at ≡ first_tick)
tick_progress_example =
    tick_progress first_tick at_rest 0 (target 0 0) refl (omega arith) refl (omega arith)

abbrev reply : Frame
reply = record {
  dst = dev_sam;
  src = dev_wall_control;
  op = op_ack06;
  payload = 0x00 ∷ 0x3b ∷ 0x02 ∷ 0x01 ∷ [];
  raw = [];
}

abbrev asked_for : Frame
asked_for = record {
  dst = dev_wall_control;
  src = dev_sam;
  op = op_read;
  payload = 0x00 ∷ 0x3b ∷ 0x02 ∷ [];
  raw = wire;
}

wire-decode : decode wire ≡ some asked_for
unfolding decode crc16_arc
wire-decode = refl

reply-IsReply : IsReply asked_for reply (0x01 ∷ [])
reply-IsReply = record {
  from_receiver = refl;
  to_sender = refl;
  acknowledges = refl;
  repeats = refl;
}

tick-note_frame_example :
    let s2 = note_frame reply second_tick asked in
    (s2.pending ≡ none)
    × (s2.failures ≡ 0)
    × ((i : ℕ) × (t : Target) × (some 0 ≡ some i)
        × (get_elem? asked.targets i ≡ some t)
        × (get_elem? s2.targets i
            ≡ some (record t { backoff = 0; due = second_tick + t.interval })))
tick-note_frame_example =
    tick-note_frame first_tick second_tick at_rest asked wire (0x01 ∷ []) asked_for reply
      at_rest-IsValid asks wire-decode reply-IsReply
