-- ===== src/Bus/Decoder/Scan.antt =====
-- The inner loop, by cases, and what it answers.
use infinid.Bus.Frame.{Frame, decode}
use mathlib.Core.Path.{subst}
use infinid.Bus.Frame.Parse.{decode-raw}
use infinid.Bus.Frame.RoundTrip.{HasHeader}
use infinid.Bus.Decoder.{Decoder, inc_u64, Scanned, found, need, scan}
use infinid.Prelude.{
  ℕ, ◌+◌, ◌%◌, ◌^◌, ◌≤◌, ◌<◌, ◌≡◌, ◌≢◌, ◌⊎◌, inl, inr, refl, sym, ap, ◌∙◌, none, some, List, [],
  ◌∷◌, ◌++◌, not, ltb, ◌==◌, length, get_or, take, drop, Bool-cases, Option-cases, length-take,
  take-append-drop, get_or-take, arith,
}

-- The length that the header at the front of a buffer announces.
abbrev pub announced : List ℕ → ℕ
announced p = get_or p 4 0 + 10

-- Why the loop stops for more bytes, delivers a frame, or slides.
abbrev pub Waits : List ℕ → Type 0
Waits p = (length p < 10) ⊎ ((get_or p 5 0 ≡ 0) × (get_or p 6 0 ≡ 0) × (length p < announced p))

abbrev pub Hits : List ℕ → Frame → Type 0
Hits p f =
    (10 ≤ length p)
    × (get_or p 5 0 ≡ 0)
    × (get_or p 6 0 ≡ 0)
    × (announced p ≤ length p)
    × (decode (take (announced p) p) ≡ some f)

abbrev pub Slides : List ℕ → Type 0
Slides p =
    (10 ≤ length p)
    × ((get_or p 5 0 ≢ 0)
        ⊎ (get_or p 6 0 ≢ 0)
        ⊎ ((announced p ≤ length p) × (decode (take (announced p) p) ≡ none)))

verdict : (p : List ℕ) → Waits p ⊎ ((f : Frame) × Hits p f) ⊎ Slides p
verdict p = elim (Bool-cases (ltb (length p) 10)) [
  | inl short ↦ inl (inl (ground arith))
  | inr long ↦ elim (Bool-cases (not (get_or p 5 0 == 0))) [
    | inl five ↦ inr (inr (ground arith, inl (ground arith)))
    | inr zero_5 ↦ elim (Bool-cases (not (get_or p 6 0 == 0))) [
      | inl six ↦ inr (inr (ground arith, inr (inl (ground arith))))
      | inr zero_6 ↦ elim (Bool-cases (ltb (length p) (announced p))) [
        | inl part ↦ inl (inr (ground arith, ground arith, ground arith))
        | inr whole ↦ complete (ground arith) (ground arith) (ground arith) (ground arith)
      ]
    ]
  ]
]
  where
    complete :
        get_or p 5 0 ≡ 0
        → get_or p 6 0 ≡ 0
        → 10 ≤ length p
        → announced p ≤ length p
        → Waits p ⊎ ((f : Frame) × Hits p f) ⊎ Slides p
    complete z5 z6 long whole = elim (Option-cases (decode (take (announced p) p))) [
      | inl e ↦ inr (inr (long, inr (inr (whole, e))))
      | inr (f, e) ↦ inr (inl (f, (long, z5, z6, whole, e)))
    ]

module _ (b : ℕ) (rest : List ℕ) (r : ℕ) where
  pub scan-Waits :
      Waits (b ∷ rest) → scan (b ∷ rest) r ≡ need (record { pending = b ∷ rest; resyncs = r })
  unfolding scan
  scan-Waits w = ground arith

  pub scan-Hits :
      (f : Frame)
      → Hits (b ∷ rest) f
      → scan (b ∷ rest) r
        ≡ found f (record { pending = drop (announced (b ∷ rest)) (b ∷ rest); resyncs = r })
  unfolding scan
  scan-Hits f h = ground arith

  pub scan-Slides : Slides (b ∷ rest) → scan (b ∷ rest) r ≡ scan rest (inc_u64 r)
  unfolding scan
  scan-Slides s = ground arith

-- Induction along the loop: it stops for more bytes, delivers, or slides over one byte.
pub scan_ind {ℓ} :
    (P : List ℕ → ℕ → Scanned → Type ℓ)
    → ((p : List ℕ) (r : ℕ) → Waits p → P p r (need (record { pending = p; resyncs = r })))
    → ((p : List ℕ) (r : ℕ) (f : Frame)
        → Hits p f
        → P p r (found f (record { pending = drop (announced p) p; resyncs = r })))
    → ((b : ℕ) (rest : List ℕ) (r : ℕ) (s : Scanned)
        → Slides (b ∷ rest)
        → P rest (inc_u64 r) s
        → P (b ∷ rest) r s)
    → (p : List ℕ) (r : ℕ) → P p r (scan p r)
scan_ind P waits hits slides [] r = unfold scan in waits [] r (omega arith)
scan_ind P waits hits slides (b ∷ rest) r = elim (verdict (b ∷ rest)) [
  | inl w ↦ rw (scan-Waits b rest r w) (waits (b ∷ rest) r w)
  | inr (inl (f, h)) ↦ rw (scan-Hits b rest r f h) (hits (b ∷ rest) r f h)
  | inr (inr s) ↦
      rw (scan-Slides b rest r s)
        (slides b rest r (scan rest (inc_u64 r)) s (scan_ind P waits hits slides rest (inc_u64 r)))
]

-- A delivered frame is the check of its own raw bytes, under a canonical header.
pub record Delivered (f : Frame) : Type 0 where
  pub header : HasHeader f.raw
  pub checked : decode f.raw ≡ some f

-- What the loop makes of the bytes: it skips some and counts them, and what it does not skip is
-- the frame and the new buffer.
abbrev pub ScanSplits : List ℕ → ℕ → Scanned → Type 0
ScanSplits p r (found f d) =
    Delivered f
    × ((skipped : List ℕ) × (p ≡ skipped ++ (f.raw ++ d.pending))
        × (d.resyncs ≡ (r + length skipped) % 2 ^ 64))
ScanSplits p r (need d) =
    Waits d.pending
    × ((skipped : List ℕ) × (p ≡ skipped ++ d.pending)
        × (d.resyncs ≡ (r + length skipped) % 2 ^ 64))

hit_raw : (p : List ℕ) (f : Frame) → Hits p f → (f.raw ≡ take (announced p) p) × Delivered f
hit_raw p f (long, z5, z6, whole, e) =
    (raw, record { header = rw raw header; checked = ap decode raw ∙ e })
  where
    raw : f.raw ≡ take (announced p) p
    raw = decode-raw (take (announced p) p) f e

    header : HasHeader (take (announced p) p)
    header = record {
      length_byte =
          omega (arith, get_or-take (announced p) p 4 0 (omega arith), length-take (announced p) p);
      zero_5 = get_or-take (announced p) p 5 0 (omega arith) ∙ z5;
      zero_6 = get_or-take (announced p) p 6 0 (omega arith) ∙ z6;
    }

slide_splits :
    (b : ℕ) (rest : List ℕ) (r : ℕ) (s : Scanned)
    → ScanSplits rest (inc_u64 r) s
    → ScanSplits (b ∷ rest) r s
slide_splits b rest r (found f d) (del, (sk, e, n)) = (del, (b ∷ sk, ap (◌∷◌ b) e, omega arith))
slide_splits b rest r (need d) (w, (sk, e, n)) = (w, (b ∷ sk, ap (◌∷◌ b) e, omega arith))

pub scan-splits : (p : List ℕ) (r : ℕ) → r < 2 ^ 64 → ScanSplits p r (scan p r)
scan-splits =
    scan_ind (λ p r s. r < 2 ^ 64 → ScanSplits p r s) (λ p r w h. (w, ([], refl, omega arith)))
      (λ p r f hit h.
        let (raw, del) = hit_raw p f hit in
        (del, ([], rw raw (sym (take-append-drop (announced p) p)), omega arith)))
      (λ b rest r s _ ih h. slide_splits b rest r s (ih (omega arith)))

pub scan_waiting :
    (p : List ℕ) (r : ℕ) → Waits p → scan p r ≡ need (record { pending = p; resyncs = r })
scan_waiting [] r w = unfold scan in refl
scan_waiting (b ∷ rest) r w = scan-Waits b rest r w

-- Nothing is left to slide over once the loop has stopped: a second run stops at once.
pub scan_again :
    (p : List ℕ) (r : ℕ) (d : Decoder) → scan p r ≡ need d → scan d.pending d.resyncs ≡ need d
scan_again =
    scan_ind (λ p r s. (d : Decoder) → s ≡ need d → scan d.pending d.resyncs ≡ need d)
      (λ p r w d e.
        subst (λ (c : Decoder). scan c.pending c.resyncs ≡ need c) (cc e) (scan_waiting p r w))
      (λ p r f hit d e. cc) (λ b rest r s _ ih d e. ih d e)

pub scan_shrinks :
    (p : List ℕ) (r : ℕ) (d : Decoder) → scan p r ≡ need d → length d.pending ≤ length p
scan_shrinks =
    scan_ind (λ p r s. (d : Decoder) → s ≡ need d → length d.pending ≤ length p)
      (λ p r w d e. ground arith) (λ p r f hit d e. cc)
      (λ b rest r s _ ih d e. omega (arith, ih d e))
