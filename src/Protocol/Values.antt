-- ===== src/Protocol/Values.antt =====
-- protocol/protocol.go and protocol/odu.go: the values that every decoder reads from a payload. An
-- index is checked, as Go's is, and out of range it panics.
pub mod Sound
use Prim.Native.String.{String}
use infinid.Bus.Frame.{get_u16}
use infinid.Prelude.Float.{Float64, ℤ, pos}
use infinid.Prelude.Run.{Run, ret, panic, at, ◌>>=◌}
use infinid.Reading.{Reading}
use infinid.Prelude.{ℕ, ◌+◌, ◌*◌, List}

unfoldable pub u16 : List ℕ → ℕ → Run ℕ
u16 p i = do hi ← at p i; lo ← at p (i + 1); ret (get_u16 hi lo)

module _ (F : Float64) where
  -- `binary.BigEndian.Uint32` of four bytes, as a float.
  unfoldable pub f32 : List ℕ → ℕ → Run F.Carrier
  f32 p i = do
    b0 ← at p i
    b1 ← at p (i + 1)
    b2 ← at p (i + 2)
    b3 ← at p (i + 3)
    ret (F.of_bits32 (b0 * 16777216 + b1 * 65536 + b2 * 256 + b3))

  -- `float64(n)`
  abbrev pub whole : ℕ → F.Carrier
  whole n = F.of_int (pos n)

  -- `v / 16.0`
  abbrev pub sixteenths : ℤ → F.Carrier
  sixteenths v = F.divide (F.of_int v) (whole 16)

  -- A `Reading` literal: `Decode` sets what it leaves out.
  abbrev pub zoned : ℕ → String → F.Carrier → String → Reading F.Carrier
  zoned zone field value text = record {
    owner = 0;
    reg = 0;
    zone = zone;
    field = field;
    value = value;
    text = text;
    ts = 0;
  }

  abbrev pub in_zone : ℕ → String → F.Carrier → Reading F.Carrier
  in_zone zone field value = zoned zone field value ""

  abbrev pub system : String → F.Carrier → Reading F.Carrier
  system field value = zoned 0 field value ""
