-- ===== src/Daemon.antt =====
-- cmd/infinid/main.go, the frame loop of `run`: what it does to the state with the readings of
-- each frame. What else it does with a frame does not touch the state.
pub mod Zones
pub mod Capped
pub mod ZoneNames
pub mod Counters
pub mod Frames
pub mod Connection
pub mod PublishLoop
use infinid.Bus.Frame.{Frame}
use infinid.Prelude.Float.{Float64}
use infinid.Prelude.Run.{Run, ret, panic, ◌>>=◌}
use infinid.Protocol.Decode.{decode}
use infinid.Reading.{Reading}
use infinid.State.{State, apply_all}
use infinid.Prelude.{ℕ, Option, none, some, List, [], ◌∷◌}

module _ (F : Float64) where
  abbrev pub applied : State F.Carrier → Option (List (Reading F.Carrier)) → State F.Carrier
  applied s none = s
  applied s (some readings) = apply_all F readings s

  -- One round of the loop: `ok` false leaves no readings.
  unfoldable pub absorb : Frame → ℕ → State F.Carrier → Run (State F.Carrier)
  absorb f now s = do readings ← decode F f now; ret (applied s readings)

  -- The loop, over the frames that the decoder delivers and the times at which it does.
  unfoldable pub absorb_all : List (Frame × ℕ) → State F.Carrier → Run (State F.Carrier)
  absorb_all [] s = ret s
  absorb_all ((f, now) ∷ rest) s = do s' ← absorb f now s; absorb_all rest s'
