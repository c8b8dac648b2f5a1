-- ===== src/Bus/Decoder.antt =====
-- bus/decoder.go: the frame splitter over a byte stream. The reader is code outside the package:
-- it enters as the list of what its successive calls of Read return.
pub mod Scan
pub mod Rounds
pub mod Stream
pub mod Clean
pub mod Receive
pub mod Ends
use infinid.Bus.Frame.{Frame, decode}
use infinid.Prelude.{
  ℕ, ◌+◌, ◌%◌, ◌^◌, Bool, not, ◌||◌, Option, none, some, List, [], ◌∷◌, ◌++◌, ltb, leb, ◌==◌,
  if◌then◌else◌, length, get_or, take, drop,
}

pub record Decoder : Type 0 where
  pub pending : List ℕ
  pub resyncs : ℕ

-- `resyncs++` on a uint64.
abbrev pub inc_u64 : ℕ → ℕ
inc_u64 n = (n + 1) % 2 ^ 64

unfoldable pub new_decoder : Decoder
new_decoder = record { pending = []; resyncs = 0 }

pub data Scanned : Type 0 where
  found : Frame → Decoder → Scanned
  need : Decoder → Scanned

-- The inner loop: slide over what cannot be a frame, until a frame is complete or more bytes are
-- needed. The length test puts the header's indices in range.
unfoldable pub scan : List ℕ → ℕ → Scanned
scan [] resyncs = need (record { pending = []; resyncs = resyncs })
scan (b ∷ rest) resyncs =
    let pending = b ∷ rest in
    let l = get_or pending 4 0 + 10 in
    let slide = scan rest (inc_u64 resyncs) in
    let here : Decoder = record { pending = pending; resyncs = resyncs } in
    if ltb (length pending) 10
    then need here
    else if not (get_or pending 5 0 == 0) || not (get_or pending 6 0 == 0)
    then slide
    else if ltb (length pending) l
    then need here
    else elim (decode (take l pending)) [
      | some f ↦ found f (record { pending = drop l pending; resyncs = resyncs })
      | none ↦ slide
    ]

-- What one call of Read returns.
pub record Read (E : Type 0) : Type 0 where
  pub bytes : List ℕ
  pub error : Option E

-- `waiting` is no return: the reader has not answered yet.
pub data Outcome (E : Type 0) : Type 0 where
  frame : Frame → Outcome E
  failed : E → Outcome E
  no_progress : Outcome E
  waiting : Outcome E

-- What `Next` returns, its receiver afterwards, and the reads that are still to come.
pub record Next (E : Type 0) : Type 0 where
  pub outcome : Outcome E
  pub decoder : Decoder
  pub reads : List (Read E)

module _ {E : Type 0} where
  abbrev stop : Outcome E → Decoder → List (Read E) → Next E
  stop o d reads = record { outcome = o; decoder = d; reads = reads }

  -- The outer loop, by the reads to come; `zero_reads` is the source's counter.
  unfoldable pub next_loop : List (Read E) → ℕ → Decoder → Next E
  next_loop [] zero_reads d = elim (scan d.pending d.resyncs) [
    | found f d' ↦ stop (frame f) d' []
    | need d' ↦ stop waiting d' []
  ]
  next_loop (r ∷ reads) zero_reads d = elim (scan d.pending d.resyncs) [
    | found f d' ↦ stop (frame f) d' (r ∷ reads)
    | need d' ↦
        let fed = next_loop reads 0 (record d' { pending = d'.pending ++ r.bytes }) in
        let salvaged =
          next_loop reads zero_reads
            (record { pending = drop 1 d'.pending; resyncs = inc_u64 d'.resyncs }) in
        let idle = next_loop reads (zero_reads + 1) d' in
        if ltb 0 (length r.bytes) then fed else elim r.error [
          | some e ↦ if leb 10 (length d'.pending) then salvaged else stop (failed e) d' reads
          | none ↦ if leb 100 (zero_reads + 1) then stop no_progress d' reads else idle
        ]
  ]

  unfoldable pub next : List (Read E) → Decoder → Next E
  unfolding next_loop
  next reads d = next_loop reads 0 d
