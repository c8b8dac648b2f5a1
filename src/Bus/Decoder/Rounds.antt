-- ===== src/Bus/Decoder/Rounds.antt =====
-- The outer loop, one round at a time.
use infinid.Bus.Frame.{Frame}
use infinid.Bus.Decoder.{
  Decoder, inc_u64, Scanned, found, need, scan, Read, frame, failed, no_progress, waiting, Next,
  stop, next_loop,
}
use infinid.Prelude.{
  ℕ, ◌+◌, ◌≤◌, ◌<◌, ◌≡◌, ◌⊎◌, inl, inr, refl, none, some, List, [], ◌∷◌, ◌++◌, ltb, leb, length,
  drop, Bool-cases, Option-cases, arith,
}

pub Scanned-cases :
    (s : Scanned) → ((f : Frame) × (d : Decoder) × (s ≡ found f d)) ⊎ ((d : Decoder) × (s ≡ need d))
Scanned-cases (found f d) = inl (f, d, refl)
Scanned-cases (need d) = inr (d, refl)

-- The decoder after a read that brought bytes, and after a salvaging slide.
abbrev pub feed : Decoder → List ℕ → Decoder
feed d bytes = record d { pending = d.pending ++ bytes }

abbrev pub shed : Decoder → Decoder
shed d = record { pending = drop 1 d.pending; resyncs = inc_u64 d.resyncs }

module _ {E : Type 0} where
  -- The bytes that a run of reads hands over.
  abbrev pub flat : List (Read E) → List ℕ
  flat [] = []
  flat (r ∷ reads) = r.bytes ++ flat reads

  module _ (r : Read E) (reads : List (Read E)) (idle_reads : ℕ) (d d' : Decoder)
      (s : scan d.pending d.resyncs ≡ need d') where
    pub next_fed :
        0 < length r.bytes
        → next_loop (r ∷ reads) idle_reads d ≡ next_loop reads 0 (feed d' r.bytes)
    unfolding next_loop
    next_fed h = ground arith

    pub next_salvaged :
        (e : E)
        → length r.bytes ≡ 0
        → r.error ≡ some e
        → 10 ≤ length d'.pending
        → next_loop (r ∷ reads) idle_reads d ≡ next_loop reads idle_reads (shed d')
    unfolding next_loop
    next_salvaged e z h l = ground arith

    pub next_failed :
        (e : E)
        → length r.bytes ≡ 0
        → r.error ≡ some e
        → length d'.pending < 10
        → next_loop (r ∷ reads) idle_reads d ≡ stop (failed e) d' reads
    unfolding next_loop
    next_failed e z h l = ground arith

    pub next_idle :
        length r.bytes ≡ 0
        → r.error ≡ none
        → idle_reads + 1 < 100
        → next_loop (r ∷ reads) idle_reads d ≡ next_loop reads (idle_reads + 1) d'
    unfolding next_loop
    next_idle z h l = ground arith

    pub next_stuck :
        length r.bytes ≡ 0
        → r.error ≡ none
        → 100 ≤ idle_reads + 1
        → next_loop (r ∷ reads) idle_reads d ≡ stop no_progress d' reads
    unfolding next_loop
    next_stuck z h l = ground arith

  pub next_found :
      (reads : List (Read E)) (idle_reads : ℕ) (d d' : Decoder) (f : Frame)
      → scan d.pending d.resyncs ≡ found f d'
      → next_loop reads idle_reads d ≡ stop (frame f) d' reads
  unfolding next_loop
  next_found [] idle_reads d d' f s = ground arith
  next_found (r ∷ reads) idle_reads d d' f s = ground arith

  pub next_waits :
      (idle_reads : ℕ) (d d' : Decoder)
      → scan d.pending d.resyncs ≡ need d'
      → next_loop {E = E} [] idle_reads d ≡ stop waiting d' []
  unfolding next_loop
  next_waits idle_reads d d' s = ground arith

  -- Induction along the outer loop.
  module _ {ℓ} (P : List (Read E) → ℕ → Decoder → Next E → Type ℓ)
      (hit : (reads : List (Read E)) (k : ℕ) (d d' : Decoder) (f : Frame)
        → scan d.pending d.resyncs ≡ found f d'
        → P reads k d (stop (frame f) d' reads))
      (waits : (k : ℕ) (d d' : Decoder)
        → scan d.pending d.resyncs ≡ need d'
        → P [] k d (stop waiting d' []))
      (fed : (r : Read E) (reads : List (Read E)) (k : ℕ) (d d' : Decoder) (n : Next E)
        → scan d.pending d.resyncs ≡ need d'
        → 0 < length r.bytes
        → P reads 0 (feed d' r.bytes) n
        → P (r ∷ reads) k d n)
      (salvaged : (r : Read E) (reads : List (Read E)) (k : ℕ) (d d' : Decoder) (n : Next E)
        → scan d.pending d.resyncs ≡ need d'
        → length r.bytes ≡ 0
        → 10 ≤ length d'.pending
        → P reads k (shed d') n
        → P (r ∷ reads) k d n)
      (fails : (r : Read E) (reads : List (Read E)) (k : ℕ) (d d' : Decoder) (e : E)
        → scan d.pending d.resyncs ≡ need d'
        → length r.bytes ≡ 0
        → length d'.pending < 10
        → P (r ∷ reads) k d (stop (failed e) d' reads))
      (idle : (r : Read E) (reads : List (Read E)) (k : ℕ) (d d' : Decoder) (n : Next E)
        → scan d.pending d.resyncs ≡ need d'
        → length r.bytes ≡ 0
        → P reads (k + 1) d' n
        → P (r ∷ reads) k d n)
      (stuck : (r : Read E) (reads : List (Read E)) (k : ℕ) (d d' : Decoder)
        → scan d.pending d.resyncs ≡ need d'
        → length r.bytes ≡ 0
        → P (r ∷ reads) k d (stop no_progress d' reads)) where
    pub next_ind : (reads : List (Read E)) (k : ℕ) (d : Decoder) → P reads k d (next_loop reads k d)
    next_ind [] k d = elim (Scanned-cases (scan d.pending d.resyncs)) [
      | inl (f, d', s) ↦ rw (next_found [] k d d' f s) (hit [] k d d' f s)
      | inr (d', s) ↦ rw (next_waits k d d' s) (waits k d d' s)
    ]
    next_ind (r ∷ reads) k d = elim (Scanned-cases (scan d.pending d.resyncs)) [
      | inl (f, d', s) ↦ rw (next_found (r ∷ reads) k d d' f s) (hit (r ∷ reads) k d d' f s)
      | inr (d', s) ↦
          answered d' s (next_ind reads 0 (feed d' r.bytes)) (next_ind reads k (shed d'))
            (next_ind reads (k + 1) d')
    ]
      where
        answered :
            (d' : Decoder)
            → scan d.pending d.resyncs ≡ need d'
            → P reads 0 (feed d' r.bytes) (next_loop reads 0 (feed d' r.bytes))
            → P reads k (shed d') (next_loop reads k (shed d'))
            → P reads (k + 1) d' (next_loop reads (k + 1) d')
            → P (r ∷ reads) k d (next_loop (r ∷ reads) k d)
        answered d' s f v i = elim (Bool-cases (ltb 0 (length r.bytes))) [
          | inl some_bytes ↦
              rw (next_fed r reads k d d' s (ground arith))
                (fed r reads k d d' _ s (ground arith) f)
          | inr no_bytes ↦ elim (Option-cases r.error) [
            | inl ok ↦ elim (Bool-cases (leb 100 (k + 1))) [
              | inl last ↦
                  rw (next_stuck r reads k d d' s (ground arith) ok (ground arith))
                    (stuck r reads k d d' s (ground arith))
              | inr more ↦
                  rw (next_idle r reads k d d' s (ground arith) ok (ground arith))
                    (idle r reads k d d' _ s (ground arith) i)
            ]
            | inr (e, broken) ↦ elim (Bool-cases (leb 10 (length d'.pending))) [
              | inl long ↦
                  rw (next_salvaged r reads k d d' s e (ground arith) broken (ground arith))
                    (salvaged r reads k d d' _ s (ground arith) (ground arith) v)
              | inr short ↦
                  rw (next_failed r reads k d d' s e (ground arith) broken (ground arith))
                    (fails r reads k d d' e s (ground arith) (ground arith))
            ]
          ]
        ]
