-- ===== src/Daemon/Frames/Sound.antt =====
-- What every round of the daemon keeps.
use infinid.Bus.Crc.{Bytes}
use infinid.Bus.Frame.{Frame}
use infinid.Capture.{add}
use infinid.Daemon.Frames.{
  Daemon, record_of, readings_or_none, count_frame, apply_readings, journaled, tick_round, heard,
  frame_round, Round, frame, timer, failed, resynced, round, rounds,
}
use infinid.Daemon.Frames.Invariant.{
  IfScheduler, IsSound, apply_readings-IsSound, journaled-IsSound, tick-IsSound, ticked-IsSound,
  resynced-IsSound,
}
use infinid.Prelude.Assoc.{string_eq}
use infinid.Prelude.Float.{Float64}
use infinid.Prelude.Run.{Returns, returns, Returns-bind}
use infinid.Protocol.Decode.{decode}
use infinid.Protocol.Decode.Sound.{decode-Returns, IfSome, IsFrom}
use infinid.Protocol.Values.Sound.{IsSound as IsReading}
use infinid.Reading.{Reading}
use infinid.Sam.{Scheduler, note_frame}
use infinid.Sam.Replies.{note_frame-IsValid}
use infinid.Prelude.{ℕ, Bool, Option, none, some, List, [], ◌∷◌, All, All-map}

module _ (F : Float64) (base : ℕ) where
  heard-IsSound :
      (f : Frame) (now : ℕ) (written : Bool) (d : Daemon F) (o : Option Scheduler)
      → IfScheduler o
      → IsSound base d
      → Returns (IsSound base) (heard f now written d o)
  heard-IsSound f now written d none v h = returns d h
  heard-IsSound f now written d (some s) v h =
      tick-IsSound F base now written d (note_frame f now s) h (note_frame-IsValid f now s v)

  good_readings :
      (f : Frame) (now : ℕ) (o : Option (List (Reading F.Carrier)))
      → IfSome (All (IsFrom F f now)) o
      → All (IsReading F) (readings_or_none o)
  good_readings f now none k = tt
  good_readings f now (some rs) k = All-map (IsFrom F f now) (λ r q. q.0) rs k

  pub frame_round-IsSound :
      (f : Frame) (now resyncs : ℕ) (written : Bool) (d : Daemon F)
      → Bytes f.payload
      → IsSound base d
      → Returns (IsSound base) (frame_round f now resyncs written d)
  unfolding frame_round count_frame
  frame_round-IsSound f now resyncs written d bytes h =
      Returns-bind (IfSome (All (IsFrom F f now))) (IsSound base) (decode F f now) _
        (decode-Returns F f now bytes)
        (λ out k.
          let recorded = record d { recorder = add (record_of f now) d.recorder } in
          let counted = count_frame now resyncs out recorded in
          let counted_sound : IsSound base counted = record {
            slotted = h.slotted;
            finite = h.finite;
            journaled = h.journaled;
            scheduled = h.scheduled;
            current = h.current;
            accounted = h.accounted;
          } in
          let applied = apply_readings (readings_or_none out) now counted in
          let applied_sound =
            apply_readings-IsSound F base (readings_or_none out) now counted
              (good_readings f now out k) counted_sound in
          let noted = journaled f now applied applied.journal in
          let noted_sound =
            journaled-IsSound F base f now applied applied.journal applied_sound.journaled
              applied_sound in
          heard-IsSound f now written noted noted.scheduler noted_sound.scheduled noted_sound)

  -- The frames among the rounds are of bytes.
  abbrev pub RoundBytes : Round → Type 0
  RoundBytes (frame f now resyncs written) = Bytes f.payload
  RoundBytes (timer now written) = Unit {0}
  RoundBytes (failed resyncs) = Unit {0}

  -- Over any rounds of the frame loop and the ticker, errors of the decoder among them, with frames
  -- of bytes, in any order and with any fates of the writes, a sound daemon does not panic and
  -- stays sound: its state has no zone but those from 1 to 8, its counters are finite, its journal's log, if it has one,
  -- gives back the counters and the faults, its scheduler, if it has one, keeps its invariant, and
  -- its running total of failures is that from before this run and what this run's scheduler
  -- counted.
  pub rounds-IsSound :
      (rs : List Round) (d : Daemon F)
      → All RoundBytes rs
      → IsSound base d
      → Returns (IsSound base) (rounds rs d)
  unfolding rounds round tick_round
  rounds-IsSound [] d bytes h = returns d h
  rounds-IsSound (frame f now resyncs written ∷ rs) d bytes h =
      Returns-bind (IsSound base) (IsSound base) (frame_round f now resyncs written d) _
        (frame_round-IsSound f now resyncs written d bytes.0 h)
        (λ d' k. rounds-IsSound rs d' bytes.1 k)
  rounds-IsSound (timer now written ∷ rs) d bytes h =
      Returns-bind (IsSound base) (IsSound base) (tick_round now written d) _
        (ticked-IsSound F base now written d d.scheduler h.scheduled h)
        (λ d' k. rounds-IsSound rs d' bytes.1 k)
  rounds-IsSound (failed resyncs ∷ rs) d bytes h =
      let n = resynced resyncs d in
      rounds-IsSound rs (record d { crc_resyncs = n }) bytes.1 (resynced-IsSound F base n d h)
