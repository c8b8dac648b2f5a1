-- ===== src/Bus/Decoder/Ends.antt =====
-- When `Next` returns: a reader that keeps failing, or that keeps answering nothing.
use infinid.Bus.Frame.{Frame}
use infinid.Bus.Decoder.{
  Decoder, need, scan, Read, Outcome, frame, failed, no_progress, Next, stop, next_loop, next,
}
use infinid.Bus.Decoder.Rounds.{
  shed, next_found, next_idle, next_stuck, next_salvaged, next_failed, Scanned-cases,
}
use infinid.Bus.Decoder.Scan.{scan_again, scan_shrinks}
use infinid.Prelude.{
  ℕ, ◌+◌, ◌≤◌, ◌<◌, ◌≡◌, ◌⊎◌, inl, inr, refl, ap, ◌∙◌, none, some, List, [], ◌∷◌, length, drop,
  arith, All, Bool-cases, leb, length-drop,
}

module _ {E : Type 0} where
  -- A read that brings nothing and no error.
  abbrev pub IsIdle : Read E → Type 0
  IsIdle r = (length r.bytes ≡ 0) × (r.error ≡ none)

  -- A read that brings nothing but an error.
  abbrev pub IsBroken : Read E → Type 0
  IsBroken r = (length r.bytes ≡ 0) × ((e : E) × (r.error ≡ some e))

  idle_limit :
      (reads : List (Read E)) (k : ℕ) (d : Decoder)
      → scan d.pending d.resyncs ≡ need d
      → All IsIdle reads
      → k < 100
      → 100 ≤ k + length reads
      → (reads' : List (Read E)) × (next_loop reads k d ≡ stop no_progress d reads')
        × (length reads' + 100 ≡ k + length reads)
  idle_limit [] k d s h lt ge = absurd (omega arith)
  idle_limit (r ∷ reads) k d s h lt ge = elim (Bool-cases (leb 100 (k + 1))) [
    | inl last ↦ (reads, next_stuck r reads k d d s h.0.0 h.0.1 (ground arith), ground arith)
    | inr more ↦
        let (reads', e, n) = idle_limit reads (k + 1) d s h.1 (ground arith) (omega arith) in
        (reads', next_idle r reads k d d s h.0.0 h.0.1 (ground arith) ∙ e, omega (arith, n))
  ]

  idle_first :
      (reads : List (Read E)) (d d' : Decoder)
      → scan d.pending d.resyncs ≡ need d'
      → All IsIdle reads
      → 100 ≤ length reads
      → (reads' : List (Read E)) × (next_loop reads 0 d ≡ stop no_progress d' reads')
        × (length reads' + 100 ≡ length reads)
  idle_first [] d d' s h n = absurd (omega arith)
  idle_first (r ∷ reads) d d' s h n =
      let again = scan_again d.pending d.resyncs d' s in
      let (reads', e, m) = idle_limit reads 1 d' again h.1 (omega arith) (omega arith) in
      (reads', next_idle r reads 0 d d' s h.0.0 h.0.1 (omega arith) ∙ e, omega (arith, m))

  -- When at least a hundred reads to come bring neither bytes nor an error, and none brings
  -- anything else, the call ends: a frame that was buffered is returned without a read, and
  -- otherwise the outcome is `no_progress` after exactly a hundred reads.
  pub next_no_progress :
      (reads : List (Read E)) (d : Decoder)
      → All IsIdle reads
      → 100 ≤ length reads
      → ((f : Frame) × ((next reads d).outcome ≡ frame f) × ((next reads d).reads ≡ reads))
        ⊎ (((next reads d).outcome ≡ no_progress)
            × (length (next reads d).reads + 100 ≡ length reads))
  unfolding next
  next_no_progress reads d h n = elim (Scanned-cases (scan d.pending d.resyncs)) [
    | inl (f, d', s) ↦
        let e = next_found reads 0 d d' f s in
        inl (f, ap (λ (m : Next E). m.outcome) e, ap (λ (m : Next E). m.reads) e)
    | inr (d', s) ↦ let (reads', e, m) = idle_first reads d d' s h n in inr (rw e refl, rw e m)
  ]

  abbrev Returns : Outcome E → Type 0
  Returns o = ((f : Frame) × (o ≡ frame f)) ⊎ ((e : E) × (o ≡ failed e))

  broken_ends :
      (reads : List (Read E)) (k : ℕ) (d : Decoder)
      → All IsBroken reads
      → 1 ≤ length reads
      → length d.pending < length reads + 9
      → Returns (next_loop reads k d).outcome
  broken_ends [] k d h one n = absurd (omega arith)
  broken_ends (r ∷ reads) k d ((z, (e, broken)), hs) one n =
      elim (Scanned-cases (scan d.pending d.resyncs)) [
        | inl (f, d', s) ↦ rw (next_found (r ∷ reads) k d d' f s) (inl (f, refl))
        | inr (d', s) ↦ elim (Bool-cases (leb 10 (length d'.pending))) [
          | inl long ↦ rw (next_salvaged r reads k d d' s e z broken (ground arith)) (
              broken_ends reads k (shed d') hs (shorter d' s (ground arith)).0
                (shorter d' s (ground arith)).1)
          | inr short ↦ rw (next_failed r reads k d d' s e z broken (ground arith)) (inr (e, refl))
        ]
      ]
    where
      shorter :
          (d' : Decoder)
          → scan d.pending d.resyncs ≡ need d'
          → 10 ≤ length d'.pending
          → (1 ≤ length reads) × (length (drop 1 d'.pending) < length reads + 9)
      shorter d' s long =
          omega (arith, scan_shrinks d.pending d.resyncs d' s, length-drop 1 d'.pending)

  -- When every read brings an error and no bytes, `next` returns a frame or a read error, given at
  -- least one read and more than nine fewer than the bytes that are buffered.
  pub next_returns :
      (reads : List (Read E)) (d : Decoder)
      → All IsBroken reads
      → 1 ≤ length reads
      → length d.pending < length reads + 9
      → ((f : Frame) × ((next reads d).outcome ≡ frame f))
        ⊎ ((e : E) × ((next reads d).outcome ≡ failed e))
  unfolding next
  next_returns reads d h one n = broken_ends reads 0 d h one n
