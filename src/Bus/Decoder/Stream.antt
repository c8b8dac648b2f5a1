-- ===== src/Bus/Decoder/Stream.antt =====
-- Where `Next` leaves the bytes of the stream, and the frames that it delivers.
use infinid.Bus.Frame.{Frame, encode}
use infinid.Bus.Frame.RoundTrip.{encode-decode}
use infinid.Bus.Frame.Parse.{IsValid}
use infinid.Bus.Crc.{IsByte, Bytes}
use infinid.Bus.Decoder.{
  Decoder, found, need, scan, Read, Outcome, frame, failed, no_progress, waiting, Next, stop,
  next_loop, next,
}
use infinid.Bus.Decoder.Rounds.{flat, feed, shed, next_ind}
use infinid.Bus.Decoder.Scan.{scan-splits, Delivered, Waits}
use infinid.Prelude.Run.{ret}
use infinid.Prelude.{
  ℕ, ◌+◌, ◌%◌, ◌^◌, ◌≤◌, ◌<◌, ◌≡◌, refl, sym, ap, ◌∙◌, List, [], ◌∷◌, ◌++◌, length, drop,
  length-append, append_assoc, append-nil, arith, All, All-append, All-left, All-right,
}

nil_of_length : (xs : List ℕ) → length xs ≡ 0 → xs ≡ []
nil_of_length [] h = refl
nil_of_length (x ∷ xs) h = absurd (omega arith)

join_end :
    (p sk p' fl out : List ℕ) → fl ≡ [] → out ≡ [] → p ≡ sk ++ p' → p ++ fl ≡ sk ++ (out ++ p')
join_end p sk p' fl out u t e = rw (u, t) (append-nil p ∙ e)

-- Skipped stretches join.
join_skipped :
    (p sk p' bytes fl sk' rest : List ℕ)
    → p ≡ sk ++ p'
    → (p' ++ bytes) ++ fl ≡ sk' ++ rest
    → p ++ (bytes ++ fl) ≡ (sk ++ sk') ++ rest
join_skipped p sk p' bytes fl sk' rest e f =
    simp (e, append_assoc) (ap (◌++◌ sk) (sym (append_assoc p' bytes fl) ∙ f))

split_head : (xs : List ℕ) → 1 ≤ length xs → (x : ℕ) × (xs ≡ x ∷ drop 1 xs)
split_head (x ∷ xs) h = (x, refl)
split_head [] h = absurd (omega arith)

module _ {E : Type 0} where
  -- The bytes that an outcome takes out of the stream, and what it promises.
  abbrev pub taken : Outcome E → List ℕ
  taken (frame f) = f.raw
  taken _ = []

  abbrev pub Promise : Outcome E → Decoder → Type 0
  Promise (frame f) d = Delivered f
  Promise (failed e) d = length d.pending < 10
  Promise no_progress d = Waits d.pending
  Promise waiting d = Waits d.pending

  -- Where the bytes went that a call of `Next` was given.
  pub record Splits (reads : List (Read E)) (d : Decoder) (n : Next E) : Type 0 where
    pub used : List (Read E)
    pub skipped : List ℕ
    pub reads_split : reads ≡ used ++ n.reads
    pub bytes_split : d.pending ++ flat used ≡ skipped ++ (taken n.outcome ++ n.decoder.pending)
    pub counted : n.decoder.resyncs ≡ (d.resyncs + length skipped) % 2 ^ 64
    pub promise : Promise n.outcome n.decoder

  abbrev Fits : List (Read E) → ℕ → Decoder → Next E → Type 0
  Fits reads k d n = d.resyncs < 2 ^ 64 → Splits reads d n

  hit-Splits :
      (reads : List (Read E)) (k : ℕ) (d d' : Decoder) (f : Frame)
      → scan d.pending d.resyncs ≡ found f d'
      → Fits reads k d (stop (frame f) d' reads)
  hit-Splits reads k d d' f s h =
      let (del, (sk, e, c)) = rw s at (scan-splits d.pending d.resyncs h) in
      record {
        used = [];
        skipped = sk;
        reads_split = refl;
        bytes_split = append-nil d.pending ∙ e;
        counted = c;
        promise = del;
      }

  -- The loop ended without a frame.
  end-Splits :
      (used reads : List (Read E)) (k : ℕ) (d d' : Decoder) (o : Outcome E)
      → scan d.pending d.resyncs ≡ need d'
      → flat used ≡ []
      → taken o ≡ []
      → (Waits d'.pending → Promise o d')
      → Fits (used ++ reads) k d (stop o d' reads)
  end-Splits used reads k d d' o s u t p h =
      let (w, (sk, e, c)) = rw s at (scan-splits d.pending d.resyncs h) in
      record {
        used = used;
        skipped = sk;
        reads_split = refl;
        bytes_split = join_end d.pending sk d'.pending (flat used) (taken o) u t e;
        counted = c;
        promise = p w;
      }

  fed-Splits :
      (r : Read E) (reads : List (Read E)) (k : ℕ) (d d' : Decoder) (n : Next E)
      → scan d.pending d.resyncs ≡ need d'
      → 0 < length r.bytes
      → Fits reads 0 (feed d' r.bytes) n
      → Fits (r ∷ reads) k d n
  fed-Splits r reads k d d' n s _ ih h =
      let (w, (sk, e, c)) = rw s at (scan-splits d.pending d.resyncs h) in
      let later = ih (omega (arith, c)) in
      record {
        used = r ∷ later.used;
        skipped = sk ++ later.skipped;
        reads_split = ap (◌∷◌ r) later.reads_split;
        bytes_split =
            join_skipped d.pending sk d'.pending r.bytes (flat later.used) later.skipped
              (taken n.outcome ++ n.decoder.pending) e later.bytes_split;
        counted = omega (arith, c, later.counted, length-append sk later.skipped);
        promise = later.promise;
      }

  salvaged-Splits :
      (r : Read E) (reads : List (Read E)) (k : ℕ) (d d' : Decoder) (n : Next E)
      → scan d.pending d.resyncs ≡ need d'
      → length r.bytes ≡ 0
      → 10 ≤ length d'.pending
      → Fits reads k (shed d') n
      → Fits (r ∷ reads) k d n
  salvaged-Splits r reads k d d' n s z long ih h =
      let (w, (sk, e, c)) = rw s at (scan-splits d.pending d.resyncs h) in
      let later = ih (omega arith) in
      let (b, cut) = split_head d'.pending (omega arith) in
      record {
        used = r ∷ later.used;
        skipped = sk ++ b ∷ later.skipped;
        reads_split = ap (◌∷◌ r) later.reads_split;
        bytes_split = rw (nil_of_length r.bytes z) (
            join_skipped d.pending sk d'.pending [] (flat later.used) (b ∷ later.skipped)
              (taken n.outcome ++ n.decoder.pending) e
              (rw (append-nil d'.pending)
                (ap (λ (p : List ℕ). p ++ flat later.used) cut ∙ ap (◌∷◌ b) later.bytes_split)));
        counted = omega (arith, c, later.counted, length-append sk (b ∷ later.skipped));
        promise = later.promise;
      }

  idle-Splits :
      (r : Read E) (reads : List (Read E)) (k : ℕ) (d d' : Decoder) (n : Next E)
      → scan d.pending d.resyncs ≡ need d'
      → length r.bytes ≡ 0
      → Fits reads (k + 1) d' n
      → Fits (r ∷ reads) k d n
  idle-Splits r reads k d d' n s z ih h =
      let (w, (sk, e, c)) = rw s at (scan-splits d.pending d.resyncs h) in
      let later = ih (omega (arith, c)) in
      record {
        used = r ∷ later.used;
        skipped = sk ++ later.skipped;
        reads_split = ap (◌∷◌ r) later.reads_split;
        bytes_split = rw (nil_of_length r.bytes z) (
            join_skipped d.pending sk d'.pending [] (flat later.used) later.skipped
              (taken n.outcome ++ n.decoder.pending) e
              (rw (append-nil d'.pending) later.bytes_split));
        counted = omega (arith, c, later.counted, length-append sk later.skipped);
        promise = later.promise;
      }

  splits : (reads : List (Read E)) (k : ℕ) (d : Decoder) → Fits reads k d (next_loop reads k d)
  splits =
      next_ind Fits hit-Splits (λ k d d' s. end-Splits [] [] k d d' waiting s refl refl (λ w. w))
        fed-Splits salvaged-Splits
        (λ r reads k d d' e s z short.
          end-Splits (r ∷ []) reads k d d' (failed e) s (rw (nil_of_length r.bytes z)) refl
            (λ _. short))
        idle-Splits
        (λ r reads k d d' s z.
          end-Splits (r ∷ []) reads k d d' no_progress s (rw (nil_of_length r.bytes z)) refl
            (λ w. w))

  -- With a counter below 2^64, each byte that was buffered or is read during a call of `next` is,
  -- in order, skipped, part of the frame that is returned, or still buffered; the counter grows by
  -- what was skipped, modulo 2^64. A returned frame is what `decode` makes of its raw bytes, under
  -- a header whose length byte is right and whose bytes 5 and 6 are zero; after a read error fewer
  -- than ten bytes are buffered, and after no progress what is buffered is waiting for more.
  pub next-Splits :
      (reads : List (Read E)) (d : Decoder) → d.resyncs < 2 ^ 64 → Splits reads d (next reads d)
  unfolding next
  next-Splits reads d h = splits reads 0 d h

  pub flat-Bytes :
      (used reads : List (Read E)) → All (λ r. Bytes r.bytes) (used ++ reads) → Bytes (flat used)
  flat-Bytes [] reads h = tt
  flat-Bytes (r ∷ used) reads h =
      All-append IsByte r.bytes (flat used) h.0 (flat-Bytes used reads h.1)

  -- On a stream of bytes, and with a counter below 2^64, a frame that `next` returns encodes to
  -- its raw bytes, and its words fit.
  pub next-encode :
      (reads : List (Read E)) (d : Decoder) (f : Frame)
      → d.resyncs < 2 ^ 64
      → Bytes d.pending
      → All (λ r. Bytes r.bytes) reads
      → (next reads d).outcome ≡ frame f
      → (encode f ≡ ret f.raw) × IsValid f
  next-encode reads d f h hp hr e =
      let s = next-Splits reads d h in
      let bytes = rw s.bytes_split at (
        All-append IsByte d.pending (flat s.used) hp
          (flat-Bytes s.used (next reads d).reads (rw s.reads_split at hr))) in
      let body =
        All-right IsByte s.skipped (taken (next reads d).outcome ++ (next reads d).decoder.pending)
          bytes in
      let raw =
        rw e at
          (All-left IsByte (taken (next reads d).outcome) (next reads d).decoder.pending body) in
      let del = rw e at s.promise in
      let (enc, valid, _) = encode-decode f.raw f raw del.header del.checked in (enc, valid)
