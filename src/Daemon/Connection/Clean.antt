-- ===== src/Daemon/Connection/Clean.antt =====
-- A connection over a clean line: from the wire to the daemon's state.
use infinid.Bus.Decoder.{Decoder, Read, Next, next}
use infinid.Bus.Decoder.Clean.{arrives}
use infinid.Bus.Decoder.Receive.{IsSent, sent-decode}
use infinid.Bus.Decoder.Rounds.{flat}
use infinid.Bus.Frame.{Frame}
use infinid.Bus.Frame.RoundTrip.{encode-HasHeader}
use infinid.Daemon.Connection.{Turn, receives, received, loop}
use infinid.Daemon.Frames.{Daemon, Round, frame as framed, frame_round, round, rounds}
use infinid.Prelude.Float.{Float64}
use infinid.Prelude.Run.{◌>>=◌, bind_ext}
use infinid.Prelude.{ℕ, ◌<◌, ◌≡◌, refl, ap, ◌∙◌, Bool, List, [], ◌∷◌, ◌++◌, length, All}

-- A frame on the wire, the time at which it is received, and the fate of the write then.
pub record Sending : Type 0 where
  pub sent : Frame
  pub wire : List ℕ
  pub now : ℕ
  pub written : Bool

abbrev pub line : List Sending → List ℕ
line [] = []
line (s ∷ ss) = s.wire ++ line ss

abbrev pub turns_of : List Sending → List Turn
turns_of [] = []
turns_of (s ∷ ss) = receives s.now s.written ∷ turns_of ss

-- The rounds of these frames, with a decoder that skips nothing.
abbrev pub rounds_of : ℕ → List Sending → List Round
rounds_of resyncs [] = []
rounds_of resyncs (s ∷ ss) =
    framed (record s.sent { raw = s.wire }) s.now resyncs s.written ∷ rounds_of resyncs ss

-- Frames that fit and are not all zeros, encoded one after the other and cut into non-empty reads
-- in any way, go through the daemon one by one, in the order in which they were sent, each as it
-- was sent, with its bytes as the raw form.
pub loop-rounds :
    {F : Float64} {E : Type 0} (ss : List Sending) (reads : List (Read E)) (dec : Decoder)
    (d : Daemon F)
    → All (λ s. IsSent s.sent s.wire) ss
    → All (λ r. 0 < length r.bytes) reads
    → dec.pending ++ flat reads ≡ line ss
    → loop (turns_of ss) reads dec d ≡ rounds (rounds_of dec.resyncs ss) d
unfolding loop rounds next round
loop-rounds [] reads dec d ok full e = refl
loop-rounds {F = F} {E = E} (s ∷ ss) reads dec d (ok, oks) full e =
    let g = record s.sent { raw = s.wire } in
    let (dec', reads', step, count, rest, full') =
      arrives s.wire g (encode-HasHeader s.sent s.wire ok.valid ok.encoded)
        (sent-decode s.sent s.wire ok) reads 0 dec (line ss) full e in
    let later = λ (n : Next E) (d' : Daemon F). loop (turns_of ss) n.reads n.decoder d' in
    ap (λ (n : Next E). received (later n) s.now n.decoder.resyncs s.written d n.outcome) step
    ∙ ap (λ r. frame_round g s.now r s.written d >>= λ d'. loop (turns_of ss) reads' dec' d') count
    ∙ bind_ext (frame_round g s.now dec.resyncs s.written d) _ _ (λ d'.
      loop-rounds ss reads' dec' d' oks full' rest ∙ ap (λ r. rounds (rounds_of r ss) d') count)
