-- ===== src/Daemon/Zones.antt =====
-- The zones of the state that the frame loop keeps.
use infinid.Bus.Crc.{Bytes}
use infinid.Bus.Frame.{Frame}
use infinid.Daemon.{applied, absorb, absorb_all}
use infinid.Prelude.Float.{Float64}
use infinid.Prelude.Run.{Returns, returns, Returns-bind}
use infinid.Protocol.Decode.{decode}
use infinid.Protocol.Decode.Sound.{decode-Returns, IfSome, IsFrom}
use infinid.Reading.{Reading}
use infinid.State.{State, new}
use infinid.State.Slots.{IsSlotted, apply_all-IsSlotted, new-IsSlotted}
use infinid.Prelude.{ℕ, Option, none, some, List, [], ◌∷◌, All, All-map}

module _ (F : Float64) where
  applied-IsSlotted :
      (f : Frame) (now : ℕ) (s : State F.Carrier) (out : Option (List (Reading F.Carrier)))
      → IsSlotted F s
      → IfSome (All (IsFrom F f now)) out
      → IsSlotted F (applied F s out)
  applied-IsSlotted f now s none h from = h
  applied-IsSlotted f now s (some rs) h from =
      apply_all-IsSlotted F rs s (All-map (IsFrom F f now) (λ r k. k.0.0) rs from) h

  absorb-Returns :
      (f : Frame) (now : ℕ) (s : State F.Carrier)
      → Bytes f.payload
      → IsSlotted F s
      → Returns (IsSlotted F) (absorb F f now s)
  unfolding absorb
  absorb-Returns f now s bytes h =
      Returns-bind (IfSome (All (IsFrom F f now))) (IsSlotted F) (decode F f now) _
        (decode-Returns F f now bytes) (λ out k. returns _ (applied-IsSlotted f now s out h k))

  absorb_all-IsSlotted :
      (fs : List (Frame × ℕ)) (s : State F.Carrier)
      → All (λ f. Bytes f.0.payload) fs
      → IsSlotted F s
      → Returns (IsSlotted F) (absorb_all F fs s)
  unfolding absorb_all
  absorb_all-IsSlotted [] s bytes h = returns s h
  absorb_all-IsSlotted ((f, now) ∷ rest) s bytes h =
      Returns-bind (IsSlotted F) (IsSlotted F) (absorb F f now s) _
        (absorb-Returns f now s bytes.0 h) (λ s' k. absorb_all-IsSlotted rest s' bytes.1 k)

  -- Whatever frames of bytes arrive, the frame loop does not panic, and the state that it keeps
  -- from its start has no zone but those from 1 to 8.
  pub absorb_all-Returns :
      (fs : List (Frame × ℕ)) (bytes : All (λ f. Bytes f.0.payload) fs)
      → Returns (IsSlotted F) (absorb_all F fs new)
  absorb_all-Returns fs bytes = absorb_all-IsSlotted fs new bytes (new-IsSlotted F)
