-- ===== src/Bus/Frame.antt =====
-- bus/frame.go: the frame, its wire form and the check of a received buffer.
pub mod Parse
pub mod RoundTrip
pub mod Corrupt
use infinid.Bus.Crc.{crc16_arc}
use infinid.Prelude.Run.{Run, ret, panic}
use infinid.Prelude.{
  ℕ, ◌+◌, ◌-◌, ◌*◌, ◌/◌, ◌%◌, bit_or, Bool, true, false, not, Option, none, some, List, [], ◌∷◌,
  ◌++◌, ltb, ◌==◌, if◌then◌else◌, length, get_or, take, drop,
}

abbrev pub dev_wall_control : ℕ
dev_wall_control = 0x2001

abbrev pub dev_sam : ℕ
dev_sam = 0x9201

abbrev pub op_ack06 : ℕ
op_ack06 = 0x06

abbrev pub op_read : ℕ
op_read = 0x0b

abbrev pub op_write : ℕ
op_write = 0x0c

abbrev pub op_nack : ℕ
op_nack = 0x15

-- `payload` is the source's Data.
pub record Frame : Type 0 where
  pub dst : ℕ
  pub src : ℕ
  pub op : ℕ
  pub payload : List ℕ
  pub raw : List ℕ

-- A uint16 in big-endian order: `byte(v >> 8)`, `byte(v)`.
abbrev pub put_u16 : ℕ → List ℕ
put_u16 v = (v / 256 % 256) ∷ (v % 256) ∷ []

-- A uint16 read in big-endian order: `uint16(b[1]) | uint16(b[0])<<8`.
unfoldable pub get_u16 : ℕ → ℕ → ℕ
get_u16 hi lo = bit_or lo (hi * 256 % 65536)

-- What `Encode` has written when it computes the checksum.
unfoldable pub unsealed : Frame → List ℕ
unsealed f = put_u16 f.dst ++ put_u16 f.src ++ (length f.payload % 256) ∷ 0 ∷ 0 ∷ f.op ∷ f.payload

-- The checksum goes last, low byte first.
unfoldable pub seal : List ℕ → List ℕ
seal body = body ++ (crc16_arc body % 256) ∷ (crc16_arc body / 256 % 256) ∷ []

unfoldable pub encode : Frame → Run (List ℕ)
encode f = if ltb 255 (length f.payload) then panic else ret (seal (unsealed f))

unfoldable pub any_nonzero : List ℕ → Bool
any_nonzero [] = false
any_nonzero (c ∷ cs) = if not (c == 0) then true else any_nonzero cs

-- `none` is the source's false, which leaves the receiver as it was. The first test puts every
-- index below in range.
unfoldable pub decode : List ℕ → Option Frame
unfolding any_nonzero get_u16
decode buf =
    let l = length buf - 2 in
    let want = crc16_arc (take l buf) in
    let got = bit_or (get_or buf l 0) (get_or buf (l + 1) 0 * 256 % 65536) in
    if ltb (length buf) 10
    then none
    else if not (any_nonzero buf)
    then none
    else if not (want == got)
    then none
    else some (record {
      dst = get_u16 (get_or buf 0 0) (get_or buf 1 0);
      src = get_u16 (get_or buf 2 0) (get_or buf 3 0);
      op = get_or buf 7 0;
      payload = drop 8 (take l buf);
      raw = buf;
    })
