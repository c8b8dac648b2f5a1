-- ===== src/Daemon/Connection/Stream.antt =====
-- A connection over any stream.
use infinid.Bus.Crc.{IsByte, Bytes}
use infinid.Bus.Decoder.{
  Decoder, new_decoder, Read, Outcome, frame, failed, no_progress, waiting, next,
}
use infinid.Bus.Decoder.Rounds.{flat}
use infinid.Bus.Decoder.Stream.{taken, next-Splits, flat-Bytes, next-encode}
use infinid.Bus.Frame.{Frame}
use infinid.Daemon.Connection.{
  sam_targets, Turn, receives, ticks, started, received, loop, run, serve,
}
use infinid.Daemon.Frames.{Daemon, resynced, tick_round, frame_round}
use infinid.Daemon.Frames.Invariant.{IfJournal, IsSound, ticked-IsSound, resynced-IsSound}
use infinid.Daemon.Frames.Sound.{frame_round-IsSound}
use infinid.Journal.Counters.{is_marshalled}
use infinid.Prelude.Float.{Float64}
use infinid.Prelude.Run.{Run, Returns, returns, Returns-bind}
use infinid.Sam.{new}
use infinid.Sam.Invariant.{HasBytes, new-IsValid}
use infinid.State.Slots.{IsSlotted}
use infinid.Prelude.{
  ℕ, ◌<◌, ◌≤◌, ◌^◌, ◌≡◌, refl, Bool, true, false, List, [], ◌∷◌, ◌++◌, All, All-append, All-right,
  arith,
}

-- A stream of bytes: what is buffered, and what is to come.
pub record IsStream {E : Type 0} (reads : List (Read E)) (dec : Decoder) : Type 0 where
  pub counter : dec.resyncs < 2 ^ 64
  pub buffered : Bytes dec.pending
  pub coming : All (λ r. Bytes r.bytes) reads

module _ {E : Type 0} where
  next-IsStream :
      (reads : List (Read E)) (dec : Decoder)
      → IsStream reads dec
      → IsStream (next reads dec).reads (next reads dec).decoder
  next-IsStream reads dec h =
      let n = next reads dec in
      let s = next-Splits reads dec h.counter in
      let all = rw s.reads_split at h.coming in
      let bytes =
        rw s.bytes_split at (
          All-append IsByte dec.pending (flat s.used) h.buffered (flat-Bytes s.used n.reads all)) in
      let body = All-right IsByte s.skipped (taken n.outcome ++ n.decoder.pending) bytes in
      record {
        counter = omega (arith, s.counted);
        buffered = All-right IsByte (taken n.outcome) n.decoder.pending body;
        coming = All-right (λ (r : Read E). Bytes r.bytes) s.used n.reads all;
      }

  next-payload :
      (reads : List (Read E)) (dec : Decoder) (f : Frame)
      → IsStream reads dec
      → (next reads dec).outcome ≡ frame f
      → Bytes f.payload
  next-payload reads dec f h e =
      (next-encode reads dec f h.counter h.buffered h.coming e).1.payload_bytes

-- What of the daemon outlives a connection.
pub record Lasts {F : Float64} (d : Daemon F) : Type 0 where
  pub slotted : IsSlotted F d.state
  pub finite : is_marshalled F d.tracker.counters ≡ true
  pub journaled : IfJournal d.journal

module _ (F : Float64) (base : ℕ) {E : Type 0} where
  received-IsSound :
      (later : Daemon F → Run (Daemon F)) (now resyncs : ℕ) (written : Bool) (d : Daemon F)
      (o : Outcome E)
      → ((f : Frame) → o ≡ frame f → Bytes f.payload)
      → ((d' : Daemon F) → IsSound base d' → Returns (IsSound base) (later d'))
      → IsSound base d
      → Returns (IsSound base) (received later now resyncs written d o)
  received-IsSound later now resyncs written d (frame f) bytes k h =
      Returns-bind (IsSound base) (IsSound base) (frame_round f now resyncs written d) later
        (frame_round-IsSound F base f now resyncs written d (bytes f refl) h) k
  received-IsSound later now resyncs written d (failed e) bytes k h =
      returns (record d { crc_resyncs = resynced resyncs d })
        (resynced-IsSound F base (resynced resyncs d) d h)
  received-IsSound later now resyncs written d no_progress bytes k h =
      returns (record d { crc_resyncs = resynced resyncs d })
        (resynced-IsSound F base (resynced resyncs d) d h)
  received-IsSound later now resyncs written d waiting bytes k h = returns d h

  loop-IsSound :
      (turns : List Turn) (reads : List (Read E)) (dec : Decoder) (d : Daemon F)
      → IsStream reads dec
      → IsSound base d
      → Returns (IsSound base) (loop turns reads dec d)
  unfolding loop tick_round
  loop-IsSound [] reads dec d s h = returns d h
  loop-IsSound (ticks now written ∷ turns) reads dec d s h =
      Returns-bind (IsSound base) (IsSound base) (tick_round now written d) _
        (ticked-IsSound F base now written d d.scheduler h.scheduled h)
        (λ d' k. loop-IsSound turns reads dec d' s k)
  loop-IsSound (receives now written ∷ turns) reads dec d s h =
      let n = next reads dec in
      received-IsSound (λ d'. loop turns n.reads n.decoder d') now n.decoder.resyncs written d
        n.outcome (λ f e. next-payload reads dec f s e)
        (λ d' k. loop-IsSound turns n.reads n.decoder d' (next-IsStream reads dec s) k) h

targets-HasBytes : All (λ c. HasBytes c.reg) sam_targets
targets-HasBytes = (
  record { byte0 = omega arith; byte1 = omega arith; byte2 = omega arith },
  (
    record { byte0 = omega arith; byte1 = omega arith; byte2 = omega arith },
    (
      record { byte0 = omega arith; byte1 = omega arith; byte2 = omega arith },
      (record { byte0 = omega arith; byte1 = omega arith; byte2 = omega arith }, tt),
    ),
  ),
)

module _ (F : Float64) where
  started-IsSound :
      (sam_enabled : Bool) (d : Daemon F) → Lasts d → IsSound d.sam_failures (started sam_enabled d)
  unfolding started new
  started-IsSound true d h = record {
    slotted = h.slotted;
    finite = h.finite;
    journaled = h.journaled;
    scheduled = new-IsValid sam_targets targets-HasBytes;
    current = refl;
    accounted = omega arith;
  }
  started-IsSound false d h = record {
    slotted = h.slotted;
    finite = h.finite;
    journaled = h.journaled;
    scheduled = tt;
    current = tt;
    accounted = omega arith;
  }

  -- Whatever bytes and errors the port's reads bring, cut in any way, wherever the ticks fall, and
  -- whatever the times and the fates of the writes: from a daemon whose zones are 1 to 8, whose
  -- tracked counters are neither NaN nor infinite, and whose journal's log, if it has one, gives
  -- back the counters and the faults, a connection does not panic, and it leaves such a daemon,
  -- with a scheduler, if there is one, that keeps its invariant, and with a total of failures that
  -- has grown by what this connection's scheduler counted.
  pub run-IsSound :
      {E : Type 0} (sam_enabled : Bool) (turns : List Turn) (reads : List (Read E)) (d : Daemon F)
      → All (λ r. Bytes r.bytes) reads
      → Lasts d
      → Returns (IsSound d.sam_failures) (run sam_enabled turns reads d)
  unfolding run new_decoder
  run-IsSound sam_enabled turns reads d bytes h =
      loop-IsSound F d.sam_failures turns reads new_decoder (started sam_enabled d)
        (record { counter = omega arith; buffered = tt; coming = bytes })
        (started-IsSound sam_enabled d h)

  -- Whatever bytes the port brings over any number of connections: a daemon whose zones are 1 to 8,
  -- whose tracked counters are neither NaN nor infinite, and whose journal's log, if it has one,
  -- gives back the counters and the faults, does not panic and stays such a daemon, and its total
  -- of failures never falls.
  pub serve-Lasts :
      {E : Type 0} (sam_enabled : Bool) (cs : List (List Turn × List (Read E))) (d : Daemon F)
      → All (λ c. All (λ r. Bytes r.bytes) c.1) cs
      → Lasts d
      → Returns (λ d'. Lasts d' × (d.sam_failures ≤ d'.sam_failures)) (serve sam_enabled cs d)
  unfolding serve
  serve-Lasts sam_enabled [] d bytes h = returns d (h, omega arith)
  serve-Lasts sam_enabled ((turns, reads) ∷ cs) d bytes h =
      Returns-bind (IsSound d.sam_failures) (λ d'. Lasts d' × (d.sam_failures ≤ d'.sam_failures))
        (run sam_enabled turns reads d) (serve sam_enabled cs)
        (run-IsSound sam_enabled turns reads d bytes.0 h)
        (λ d' k.
          let later =
            serve-Lasts sam_enabled cs d' bytes.1
              (record { slotted = k.slotted; finite = k.finite; journaled = k.journaled }) in
          record {
            value = later.value;
            eq = later.eq;
            holds = (later.holds.0, omega (arith, later.holds.1, k.accounted));
          })
