-- ===== src/Daemon/Connection.antt =====
-- cmd/infinid/main.go, `run`: a connection of the port, from its start to the decoder's error. What
-- the port's reads bring is a list; a list that is used up is a port that has not answered yet.
pub mod Stream
pub mod Clean
use infinid.Bus.Decoder.{
  Decoder, new_decoder, Read, Outcome, frame, failed, no_progress, waiting, Next, next,
}
use infinid.Daemon.Frames.{Daemon, resynced, tick_round, frame_round}
use infinid.Prelude.Float.{Float64}
use infinid.Prelude.Run.{Run, ret, panic, ◌>>=◌}
use infinid.Prelude.Time.{second}
use infinid.Sam.{Config, new}
use infinid.Prelude.{ℕ, ◌*◌, Bool, true, false, Option, none, some, List, [], ◌∷◌, if◌then◌else◌}

-- The registers that are polled.
abbrev pub sam_targets : List Config
sam_targets =
    record { reg = record { byte0 = 0x00; byte1 = 0x3b; byte2 = 0x02 }; interval = 10 * second }
    ∷ record { reg = record { byte0 = 0x00; byte1 = 0x3b; byte2 = 0x03 }; interval = 10 * second }
    ∷ record { reg = record { byte0 = 0x00; byte1 = 0x3b; byte2 = 0x05 }; interval = 3600 * second }
    ∷ record { reg = record { byte0 = 0x00; byte1 = 0x42; byte2 = 0x02 }; interval = 3600 * second }
    ∷ []

-- What comes next: the frame loop's call of `Next`, with the time after it, or a tick. Both have
-- the fate of the write.
pub data Turn : Type 0 where
  receives : ℕ → Bool → Turn
  ticks : ℕ → Bool → Turn

module _ {F : Float64} where
  -- The locals of `run` at its start.
  unfoldable pub started : Bool → Daemon F → Daemon F
  started sam_enabled d = record d {
    scheduler = if sam_enabled then some (new sam_targets) else none;
    last_resyncs = 0;
    last_sched_failures = 0;
  }

  module _ {E : Type 0} where
    -- The body of the loop after `Next`, and what comes later.
    abbrev pub received :
        (Daemon F → Run (Daemon F)) → ℕ → ℕ → Bool → Daemon F → Outcome E → Run (Daemon F)
    received later now resyncs written d (frame f) = do
      d' ← frame_round f now resyncs written d
      later d'
    received later now resyncs written d (failed e) =
        ret (record d { crc_resyncs = resynced resyncs d })
    received later now resyncs written d no_progress =
        ret (record d { crc_resyncs = resynced resyncs d })
    received later now resyncs written d waiting = ret d

    unfoldable pub loop : List Turn → List (Read E) → Decoder → Daemon F → Run (Daemon F)
    unfolding tick_round frame_round next
    loop [] reads dec d = ret d
    loop (ticks now written ∷ turns) reads dec d = do
      d' ← tick_round now written d
      loop turns reads dec d'
    loop (receives now written ∷ turns) reads dec d =
        let n = next reads dec in
        received (λ d'. loop turns n.reads n.decoder d') now n.decoder.resyncs written d n.outcome

    unfoldable pub run : Bool → List Turn → List (Read E) → Daemon F → Run (Daemon F)
    unfolding started loop new_decoder
    run sam_enabled turns reads d = loop turns reads new_decoder (started sam_enabled d)

    -- The loop of `main`: one connection after the other, each with its turns and its reads. A
    -- port that cannot be opened is a connection without turns.
    unfoldable pub serve : Bool → List (List Turn × List (Read E)) → Daemon F → Run (Daemon F)
    unfolding run
    serve sam_enabled [] d = ret d
    serve sam_enabled ((turns, reads) ∷ connections) d = do
      d' ← run sam_enabled turns reads d
      serve sam_enabled connections d'
