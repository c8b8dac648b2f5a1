-- ===== src/Bus/Frame/Parse.antt =====
-- What `decode` makes of a buffer cut into its body and its checksum.
use infinid.Bus.Crc.{IsByte, Bytes, crc16_arc}
use infinid.Bus.Frame.{Frame, get_u16, any_nonzero, decode}
use infinid.Prelude.Bits.{or_low_high}
use infinid.Prelude.{
  ℕ, ◌+◌, ◌*◌, ◌%◌, ◌≤◌, ◌<◌, ◌≡◌, refl, ap, bit_or, not, none, some, List, [], ◌∷◌, ◌++◌, ◌==◌,
  if◌then◌else◌, length, get_or, drop, length-append, take-append, get_or-append,
  get_or-append_left, arith,
}

-- The values of a frame are words of their widths, and the payload fits the length byte.
pub record IsValid (f : Frame) : Type 0 where
  pub dst_word : f.dst < 65536
  pub src_word : f.src < 65536
  pub op_byte : IsByte f.op
  pub payload_bytes : Bytes f.payload
  pub payload_fits : length f.payload ≤ 255

pub get_u16_lem : (hi lo : ℕ) → IsByte hi → IsByte lo → get_u16 hi lo ≡ hi * 256 + lo
unfolding get_u16
get_u16_lem hi lo h k = omega (arith, or_low_high 8 lo hi, ap (bit_or lo) wrap)
  where
    wrap : hi * 256 % 65536 ≡ hi * 256
    wrap = omega arith

module _ (body : List ℕ) (lo hi : ℕ) where
  abbrev pub sealed : List ℕ
  sealed = body ++ lo ∷ hi ∷ []

  -- The frame that a buffer holds whose checks pass.
  abbrev pub parsed : Frame
  parsed = record {
    dst = get_u16 (get_or body 0 0) (get_or body 1 0);
    src = get_u16 (get_or body 2 0) (get_or body 3 0);
    op = get_or body 7 0;
    payload = drop 8 body;
    raw = sealed;
  }

  pub decode-sealed :
      IsByte lo
      → IsByte hi
      → 8 ≤ length body
      → decode sealed ≡ (
          if not (any_nonzero sealed)
          then none
          else if not (crc16_arc body == lo + hi * 256)
          then none
          else some parsed)
  unfolding decode
  decode-sealed hl hh h = ground (
    arith,
    length-append body (lo ∷ hi ∷ []),
    take-append body (lo ∷ hi ∷ []),
    get_or-append body (lo ∷ hi ∷ []) 0 0,
    get_or-append body (lo ∷ hi ∷ []) 1 0,
    get_or-append_left body (lo ∷ hi ∷ []) 0 0,
    get_or-append_left body (lo ∷ hi ∷ []) 1 0,
    get_or-append_left body (lo ∷ hi ∷ []) 2 0,
    get_or-append_left body (lo ∷ hi ∷ []) 3 0,
    get_or-append_left body (lo ∷ hi ∷ []) 7 0,
    or_low_high 8 lo hi,
  )

-- A buffer with room for a checksum is a body and two bytes.
pub split_seal :
    (buf : List ℕ)
    → 2 ≤ length buf
    → (body : List ℕ) × (lo : ℕ) × (hi : ℕ) × (buf ≡ body ++ lo ∷ hi ∷ [])
split_seal (lo ∷ hi ∷ []) h = ([], lo, hi, refl)
split_seal (x ∷ lo ∷ hi ∷ rest) h =
    let (body, l, k, e) = split_seal (lo ∷ hi ∷ rest) (omega arith) in
    (x ∷ body, l, k, ap (◌∷◌ x) e)
split_seal (x ∷ []) h = absurd (omega arith)
split_seal [] h = absurd (omega arith)

module _ (buf : List ℕ) (f : Frame) (e : decode buf ≡ some f) where
  -- What a success says of the buffer, field by field.
  pub decode-long : 10 ≤ length buf
  unfolding decode
  decode-long = ground arith

  pub decode-raw : f.raw ≡ buf
  unfolding decode
  decode-raw = ground arith

pub decode_crc :
    (body : List ℕ) (lo hi : ℕ) (f : Frame)
    → IsByte lo
    → IsByte hi
    → decode (body ++ lo ∷ hi ∷ []) ≡ some f
    → (crc16_arc body ≡ lo + hi * 256) × (f ≡ parsed body lo hi) × (8 ≤ length body)
decode_crc body lo hi f hl hh e = ground (
  arith,
  decode-long (body ++ lo ∷ hi ∷ []) f e,
  length-append body (lo ∷ hi ∷ []),
  decode-sealed body lo hi hl hh,
)
