-- ===== src/Bus/Decoder/Receive.antt =====
-- Frames sent and received: the stream as a whole.
use mathlib.Core.Path.{subst}
use infinid.Bus.Frame.{Frame, decode, encode}
use infinid.Bus.Frame.RoundTrip.{decode-encode, encode-HasHeader}
use infinid.Bus.Frame.Parse.{IsValid}
use infinid.Bus.Decoder.{Decoder, Read, frame, Next, stop, next_loop, next}
use infinid.Bus.Decoder.Rounds.{flat}
use infinid.Prelude.Run.{ret, ret-injective}
use infinid.Prelude.{
  ℕ, zero, suc, ◌+◌, ◌<◌, ◌≡◌, refl, sym, ap, ◌∙◌, some, List, [], ◌∷◌, ◌++◌, length, length-append,
  append-nil, arith, All,
}
use infinid.Bus.Decoder.Clean.{arrives}

-- The frames of a stream, read by successive calls.
module _ {E : Type 0} where
  -- A returned frame, and what the later calls return; anything else ends the run.
  abbrev collect :
      (List (Read E) → Decoder → List Frame × Decoder × List (Read E))
      → Next E
      → List Frame × Decoder × List (Read E)
  collect later n = elim n.outcome [
    | frame f ↦ let rest = later n.reads n.decoder in (f ∷ rest.0, rest.1, rest.2)
    | _ ↦ ([], n.decoder, n.reads)
  ]

  pub receive : ℕ → List (Read E) → Decoder → List Frame × Decoder × List (Read E)
  receive zero reads d = ([], d, reads)
  receive (suc n) reads d = collect (receive n) (next reads d)

-- A frame that was sent, with the bytes that it was encoded to.
pub record IsSent (f : Frame) (wire : List ℕ) : Type 0 where
  pub valid : IsValid f
  pub not_zero : 0 < f.dst + f.src + f.op
  pub encoded : encode f ≡ ret wire

abbrev pub Sent : List (Frame × List ℕ) → Type 0
Sent = All (λ s. IsSent s.0 s.1)

abbrev pub wires : List (Frame × List ℕ) → List ℕ
wires [] = []
wires ((f, wire) ∷ sent) = wire ++ wires sent

abbrev pub stamped : List (Frame × List ℕ) → List Frame
stamped [] = []
stamped ((f, wire) ∷ sent) = record f { raw = wire } ∷ stamped sent

pub sent-decode :
    (f : Frame) (wire : List ℕ) → IsSent f wire → decode wire ≡ some (record f { raw = wire })
sent-decode f wire s =
    let (buf, enc, dec, _) = decode-encode f s.valid s.not_zero in
    subst (λ (w : List ℕ). decode w ≡ some (record f { raw = w }))
      (ret-injective (sym enc ∙ s.encoded)) dec

module _ {E : Type 0} where
  receive_frame :
      (n : ℕ) (reads reads' : List (Read E)) (d d' : Decoder) (f : Frame)
      → next_loop reads 0 d ≡ stop (frame f) d' reads'
      → receive (suc n) reads d
        ≡ (f ∷ (receive n reads' d').0, (receive n reads' d').1, (receive n reads' d').2)
  unfolding receive next
  receive_frame n reads reads' d d' f e = ap (collect (receive n)) e

  nothing_left :
      (reads : List (Read E)) (d : Decoder)
      → All (λ r. 0 < length r.bytes) reads
      → d.pending ++ flat reads ≡ []
      → (reads ≡ []) × (d.pending ≡ [])
  nothing_left [] d h e = (refl, sym (append-nil d.pending) ∙ e)
  nothing_left (r ∷ reads) d h e = absurd (
      omega (
        arith,
        h.0,
        ap length e,
        length-append d.pending (r.bytes ++ flat reads),
        length-append r.bytes (flat reads),
      ))

  -- Frames that fit and are not all zeros, encoded one after the other and cut into non-empty
  -- reads in any way, are returned by successive calls of `next` in the order in which they were
  -- sent, each with its bytes as the raw form; no byte is skipped and none is left over.
  pub receive-encode :
      (sent : List (Frame × List ℕ)) (reads : List (Read E)) (d : Decoder)
      → Sent sent
      → All (λ r. 0 < length r.bytes) reads
      → d.pending ++ flat reads ≡ wires sent
      → receive (length sent) reads d
        ≡ (stamped sent, record { pending = []; resyncs = d.resyncs }, [])
  unfolding receive
  receive-encode [] reads d s h e =
      let (no_reads, no_bytes) = nothing_left reads d h e in ground (arith, no_reads, no_bytes)
  receive-encode ((f, wire) ∷ sent) reads d (s, ss) h e =
      let (d', reads', step, count, rest, h') =
        arrives wire (record f { raw = wire }) (encode-HasHeader f wire s.valid s.encoded)
          (sent-decode f wire s) reads 0 d (wires sent) h e in
      receive_frame (length sent) reads reads' d d' _ step
      ∙ rw (receive-encode sent reads' d' ss h' rest, count)
