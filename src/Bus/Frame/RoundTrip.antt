-- ===== src/Bus/Frame/RoundTrip.antt =====
-- Encoding and decoding a frame, one after the other.
use mathlib.Core.Path.{subst}
use infinid.Bus.Crc.{IsByte, Bytes, crc16_arc}
use infinid.Bus.Crc.Laws.{crc16_arc-lt}
use infinid.Bus.Frame.{Frame, unsealed, seal, encode, any_nonzero, decode}
use mathlib.Core.Path.{ap₂}
use infinid.Prelude.Run.{ret, ret-injective}
use infinid.Prelude.{
  ℕ, zero, suc, ◌+◌, ◌*◌, ◌/◌, ◌%◌, ◌≤◌, ◌<◌, ◌≡◌, refl, sym, ap, ◌∙◌, true, some, List, [], ◌∷◌,
  ◌++◌, length, get_or, All-left, All-right, length-append, get_or-append_left, arith,
}
use infinid.Bus.Frame.Parse.{
  IsValid, get_u16_lem, parsed, decode-sealed, decode_crc, decode-long, decode-raw, split_seal,
}

-- The bytes that `encode` writes for a frame that fits.
pub encode-seal : (f : Frame) → IsValid f → encode f ≡ ret (seal (unsealed f))
unfolding encode
encode-seal f v = ground arith

any_nonzero-sealed :
    (f : Frame) (rest : List ℕ)
    → IsValid f
    → 0 < f.dst + f.src + f.op
    → any_nonzero (unsealed f ++ rest) ≡ true
unfolding any_nonzero unsealed
any_nonzero-sealed f rest v h = ground (arith, v.dst_word, v.src_word)

unsealed-Bytes : (f : Frame) → IsValid f → Bytes (unsealed f)
unfolding unsealed
unsealed-Bytes f v = ground arith

parsed-unsealed :
    (f : Frame) (lo hi : ℕ)
    → IsValid f
    → parsed (unsealed f) lo hi ≡ record f { raw = unsealed f ++ lo ∷ hi ∷ [] }
unfolding unsealed
parsed-unsealed f lo hi v = ground (
  arith,
  get_u16_lem (f.dst / 256 % 256) (f.dst % 256),
  get_u16_lem (f.src / 256 % 256) (f.src % 256),
)

length-unsealed : (f : Frame) → length (unsealed f) ≡ length f.payload + 8
unfolding unsealed
length-unsealed f = omega arith

pub decode-seal :
    (f : Frame)
    → IsValid f
    → 0 < f.dst + f.src + f.op
    → decode (seal (unsealed f)) ≡ some (record f { raw = seal (unsealed f) })
unfolding seal
decode-seal f v h = ground (
  arith,
  decode-sealed (unsealed f) (crc16_arc (unsealed f) % 256) (crc16_arc (unsealed f) / 256 % 256),
  any_nonzero-sealed f (crc16_arc (unsealed f) % 256 ∷ crc16_arc (unsealed f) / 256 % 256 ∷ []) v h,
  parsed-unsealed f (crc16_arc (unsealed f) % 256) (crc16_arc (unsealed f) / 256 % 256) v,
  crc16_arc-lt (unsealed f) (unsealed-Bytes f v),
  length-unsealed f,
)

-- The header of a canonical buffer: its length byte counts the payload, and two zeros follow.
pub record HasHeader (buf : List ℕ) : Type 0 where
  pub length_byte : get_or buf 4 0 + 10 ≡ length buf
  pub zero_5 : get_or buf 5 0 ≡ 0
  pub zero_6 : get_or buf 6 0 ≡ 0

unsealed-parsed :
    (body : List ℕ) (lo hi : ℕ)
    → Bytes body
    → 8 ≤ length body
    → get_or body 4 0 + 8 ≡ length body
    → get_or body 5 0 ≡ 0
    → get_or body 6 0 ≡ 0
    → unsealed (parsed body lo hi) ≡ body
unfolding unsealed
unsealed-parsed (d0 ∷ d1 ∷ s0 ∷ s1 ∷ n ∷ z5 ∷ z6 ∷ op ∷ rest) lo hi h long ln e5 e6 =
    ground (arith, get_u16_lem d0 d1, get_u16_lem s0 s1, h.0)
unsealed-parsed _ lo hi h long ln e5 e6 = absurd (omega arith)

parsed-IsValid :
    (body : List ℕ) (lo hi : ℕ)
    → Bytes body
    → 8 ≤ length body
    → length body ≤ 263
    → IsValid (parsed body lo hi)
parsed-IsValid (d0 ∷ d1 ∷ s0 ∷ s1 ∷ n ∷ z5 ∷ z6 ∷ op ∷ rest) lo hi h long short = record {
  dst_word = omega (arith, get_u16_lem d0 d1 h.0 h.1.0, h);
  src_word = omega (arith, get_u16_lem s0 s1 h.1.1.0 h.1.1.1.0, h);
  op_byte = h.1.1.1.1.1.1.1.0;
  payload_bytes = h.1.1.1.1.1.1.1.1;
  payload_fits = omega arith;
}
parsed-IsValid _ lo hi h long short = absurd (omega arith)

pub get_or-IsByte : (xs : List ℕ) (i : ℕ) → Bytes xs → IsByte (get_or xs i 0)
get_or-IsByte [] i h = omega arith
get_or-IsByte (x ∷ xs) zero h = h.0
get_or-IsByte (x ∷ xs) (suc i) h = get_or-IsByte xs i h.1

encode-parsed :
    (body : List ℕ) (lo hi : ℕ)
    → Bytes body
    → IsByte lo
    → IsByte hi
    → 8 ≤ length body
    → get_or body 4 0 + 8 ≡ length body
    → get_or body 5 0 ≡ 0
    → get_or body 6 0 ≡ 0
    → crc16_arc body ≡ lo + hi * 256
    → encode (parsed body lo hi) ≡ ret (body ++ lo ∷ hi ∷ [])
encode-parsed body lo hi h hl hh long ln e5 e6 crc =
    encode-seal (parsed body lo hi)
      (parsed-IsValid body lo hi h long (omega (arith, get_or-IsByte body 4 h)))
    ∙ rw (unsealed-parsed body lo hi h long ln e5 e6) (ap ret again)
  where
    again : seal body ≡ body ++ lo ∷ hi ∷ []
    again = unfold seal in rw crc (ap₂ (λ x y. body ++ x ∷ y ∷ []) (omega arith) (omega arith))

-- A frame whose words fit, and whose addresses and operation are not all zero, is encoded without
-- a panic; decoding the bytes gives the frame back, with the bytes as its raw form, and they are
-- ten more than the payload.
pub decode-encode :
    (f : Frame)
    → IsValid f
    → 0 < f.dst + f.src + f.op
    → (buf : List ℕ) × (encode f ≡ ret buf)
      × (decode buf ≡ some (record f { raw = buf }))
      × (length buf ≡ length f.payload + 10)
decode-encode f v h = (seal (unsealed f), encode-seal f v, decode-seal f v h, length-seal)
  where
    length-seal : length (seal (unsealed f)) ≡ length f.payload + 10
    length-seal =
        unfold seal in
        omega (
          arith,
          length-unsealed f,
          length-append (unsealed f)
              (crc16_arc (unsealed f) % 256 ∷ crc16_arc (unsealed f) / 256 % 256 ∷ []),
        )

seal-HasHeader : (f : Frame) → IsValid f → HasHeader (seal (unsealed f))
unfolding unsealed seal
seal-HasHeader f v = record {
  length_byte = ground (
    arith,
    v.payload_fits,
    length-append f.payload
        (crc16_arc (unsealed f) % 256 ∷ crc16_arc (unsealed f) / 256 % 256 ∷ []),
  );
  zero_5 = refl;
  zero_6 = refl;
}

pub encode-HasHeader : (f : Frame) (buf : List ℕ) → IsValid f → encode f ≡ ret buf → HasHeader buf
encode-HasHeader f buf v e =
    subst HasHeader (ret-injective (sym (encode-seal f v) ∙ e)) (seal-HasHeader f v)

encode-decode_split :
    (body : List ℕ) (lo hi : ℕ) (f : Frame)
    → Bytes (body ++ lo ∷ hi ∷ [])
    → HasHeader (body ++ lo ∷ hi ∷ [])
    → decode (body ++ lo ∷ hi ∷ []) ≡ some f
    → (encode f ≡ ret (body ++ lo ∷ hi ∷ [])) × IsValid f × (f.raw ≡ body ++ lo ∷ hi ∷ [])
encode-decode_split body lo hi f bytes hd e =
    let front = All-left IsByte body (lo ∷ hi ∷ []) bytes in
    let back = All-right IsByte body (lo ∷ hi ∷ []) bytes in
    let (crc, is_parsed, long) = decode_crc body lo hi f back.0 back.1.0 e in
    let four = get_or-append_left body (lo ∷ hi ∷ []) 4 0 (omega arith) in
    let five = get_or-append_left body (lo ∷ hi ∷ []) 5 0 (omega arith) in
    let six = get_or-append_left body (lo ∷ hi ∷ []) 6 0 (omega arith) in
    let counted : get_or body 4 0 + 8 ≡ length body =
      omega (arith, four, hd.length_byte, length-append body (lo ∷ hi ∷ [])) in
    (
      rw is_parsed (
          encode-parsed body lo hi front back.0 back.1.0 long counted (sym five ∙ hd.zero_5)
            (sym six ∙ hd.zero_6) crc),
      rw is_parsed
          (parsed-IsValid body lo hi front long (omega (arith, get_or-IsByte body 4 front))),
      decode-raw (body ++ lo ∷ hi ∷ []) f e,
    )

-- A buffer of bytes with a canonical header that decodes to a frame is what that frame
-- encodes to; the frame's words fit, and its raw form is the buffer.
pub encode-decode :
    (buf : List ℕ) (f : Frame)
    → Bytes buf
    → HasHeader buf
    → decode buf ≡ some f
    → (encode f ≡ ret buf) × IsValid f × (f.raw ≡ buf)
encode-decode buf f hb hd e =
    let (body, lo, hi, cut) = split_seal buf (omega (arith, decode-long buf f e)) in
    rw cut (encode-decode_split body lo hi f (rw cut at hb) (rw cut at hd) (rw cut at e))
