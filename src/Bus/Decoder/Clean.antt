-- ===== src/Bus/Decoder/Clean.antt =====
-- The decoder on a clean stream, in any chunks.
use mathlib.Core.Path.{subst}
use infinid.Bus.Frame.{Frame, decode}
use infinid.Bus.Frame.RoundTrip.{HasHeader}
use infinid.Bus.Frame.Parse.{decode-long}
use infinid.Bus.Decoder.{Decoder, found, scan, Read, frame, stop, next_loop}
use infinid.Bus.Decoder.Rounds.{flat, feed, next_fed, next_found}
use infinid.Bus.Decoder.Scan.{announced, Waits, Hits, scan_waiting, scan-Hits}
use infinid.Prelude.{
  ℕ, ◌≤◌, ◌<◌, ◌≡◌, ◌⊎◌, inl, inr, refl, sym, ap, ◌∙◌, some, List, [], ◌∷◌, ◌++◌, length, drop,
  get_or, length-append, append_assoc, arith, All, take-append, drop-append, get_or-append_left,
  Bool-cases, ltb,
}

-- Two cuts of one list: the first is the shorter, or not.
overlap :
    (a b c d : List ℕ)
    → a ++ b ≡ c ++ d
    → ((x : ℕ) × (q : List ℕ) × (c ≡ a ++ x ∷ q)) ⊎ ((t : List ℕ) × (a ≡ c ++ t) × (t ++ b ≡ d))
overlap a b [] d e = inr (a, refl, e)
overlap [] b (x ∷ c) d e = inl (x, c, refl)
overlap (y ∷ a) b (x ∷ c) d e = elim (overlap a b c d (ap (drop 1) e)) [
  | inl (z, q, p) ↦ inl (z, q, cc)
  | inr (t, p, r) ↦ inr (t, cc, r)
]

-- The raw bytes of one frame.
module _ (buf : List ℕ) (g : Frame) (header : HasHeader buf) (checked : decode buf ≡ some g) where
  part-Waits : (p : List ℕ) (x : ℕ) (q : List ℕ) → buf ≡ p ++ x ∷ q → Waits p
  part-Waits p x q e = elim (Bool-cases (ltb (length p) 10)) [
    | inl short ↦ inl (ground arith)
    | inr long ↦ let h = rw e at header in inr (long_part h (ground arith))
  ]
    where
      long_part :
          HasHeader (p ++ x ∷ q)
          → 10 ≤ length p
          → (get_or p 5 0 ≡ 0) × (get_or p 6 0 ≡ 0) × (length p < announced p)
      long_part h long = (
        sym (get_or-append_left p (x ∷ q) 5 0 (omega arith)) ∙ h.zero_5,
        sym (get_or-append_left p (x ∷ q) 6 0 (omega arith)) ∙ h.zero_6,
        omega (
          arith,
          h.length_byte,
          get_or-append_left p (x ∷ q) 4 0 (omega arith),
          length-append p (x ∷ q),
        ),
      )

  announced-whole : (t : List ℕ) → announced (buf ++ t) ≡ length buf
  announced-whole t = omega (
    arith,
    get_or-append_left buf t 4 0 (omega (arith, decode-long buf g checked)),
    header.length_byte,
  )

  whole-Hits : (t : List ℕ) → Hits (buf ++ t) g
  whole-Hits t = (
    omega (arith, long, length-append buf t),
    get_or-append_left buf t 5 0 (omega (arith, long)) ∙ header.zero_5,
    get_or-append_left buf t 6 0 (omega (arith, long)) ∙ header.zero_6,
    omega (arith, count, length-append buf t),
    rw (count, take-append buf t) checked,
  )
    where
      long : 10 ≤ length buf
      long = decode-long buf g checked

      count : announced (buf ++ t) ≡ length buf
      count = announced-whole t

  scan_whole :
      (p t : List ℕ) (r : ℕ)
      → p ≡ buf ++ t
      → scan p r ≡ found g (record { pending = t; resyncs = r })
  scan_whole [] t r e =
      absurd (omega (arith, decode-long buf g checked, length-append buf t, ap length e))
  scan_whole (b ∷ p) t r e =
      scan-Hits b p r g (subst (λ (q : List ℕ). Hits q g) (sym e) (whole-Hits t))
      ∙ ap (λ (rest : List ℕ). found g (record { pending = rest; resyncs = r }))
          (ap (λ (q : List ℕ). drop (announced q) q) e ∙ rw (announced-whole t) (drop-append buf t))

  module _ {E : Type 0} where
    -- What a call of `next` leaves of a stream that begins with the frame.
    abbrev pub Arrives : List (Read E) → ℕ → Decoder → List ℕ → Type 0
    Arrives reads k d tail =
        (d' : Decoder) × (reads' : List (Read E)) × (next_loop reads k d ≡ stop (frame g) d' reads')
        × (d'.resyncs ≡ d.resyncs)
        × (d'.pending ++ flat reads' ≡ tail)
        × All (λ r. 0 < length r.bytes) reads'

    at_once :
        (reads : List (Read E)) (k : ℕ) (d : Decoder) (tail t : List ℕ)
        → All (λ r. 0 < length r.bytes) reads
        → d.pending ≡ buf ++ t
        → t ++ flat reads ≡ tail
        → Arrives reads k d tail
    at_once reads k d tail t h whole rest = (
      record { pending = t; resyncs = d.resyncs },
      reads,
      next_found reads k d _ g (scan_whole d.pending t d.resyncs whole),
      refl,
      rest,
      h,
    )

    pub arrives :
        (reads : List (Read E)) (k : ℕ) (d : Decoder) (tail : List ℕ)
        → All (λ r. 0 < length r.bytes) reads
        → d.pending ++ flat reads ≡ buf ++ tail
        → Arrives reads k d tail
    arrives [] k d tail h e = elim (overlap d.pending [] buf tail e) [
      | inl (x, q, part) ↦ absurd (
          omega (
            arith,
            ap length e,
            ap length part,
            length-append d.pending [],
            length-append buf tail,
            length-append d.pending (x ∷ q),
          ))
      | inr (t, whole, rest) ↦ at_once [] k d tail t h whole rest
    ]
    arrives (r ∷ reads) k d tail h e = elim (overlap d.pending (flat (r ∷ reads)) buf tail e) [
      | inl (x, q, part) ↦
          let waiting = scan_waiting d.pending d.resyncs (part-Waits d.pending x q part) in
          rw (next_fed r reads k d d waiting h.0) (
            arrives reads 0 (feed d r.bytes) tail h.1
              (append_assoc d.pending r.bytes (flat reads) ∙ e))
      | inr (t, whole, rest) ↦ at_once (r ∷ reads) k d tail t h whole rest
    ]
