-- ===== src/Protocol/Decode/Rows.antt =====
-- The temperature rows of register 000302, written and read.
use Prim.Native.String.{String}
use infinid.Bus.Frame.{get_u16}
use infinid.Bus.Frame.Parse.{get_u16_lem}
use infinid.Prelude.Assoc.{lookup, nat_eq}
use infinid.Prelude.Float.{Float64, ℤ, pos, negsuc, signed16}
use infinid.Protocol.Decode.{tlv_names, tlv_temps}
use infinid.Protocol.Values.{sixteenths, system}
use infinid.Reading.{Reading}
use infinid.Prelude.{ℕ, ◌-◌, ◌/◌, ◌%◌, ◌<◌, ◌≡◌, refl, ap, ◌∙◌, some, List, [], ◌∷◌, All, arith}

-- A known sensor's id and name, and its reading in sixteenths of a degree.
pub record Row : Type 0 where
  pub id : ℕ
  pub name : String
  pub value : ℤ

-- The value fits an int16.
abbrev pub Fits16 : ℤ → Type 0
Fits16 (pos n) = n < 32768
Fits16 (negsuc n) = n < 32768

pub record IsRow (r : Row) : Type 0 where
  pub known : lookup r.id tlv_names ≡ some r.name
  pub fits : Fits16 r.value

-- The bit pattern of an int16.
abbrev pub word_of : ℤ → ℕ
word_of (pos n) = n
word_of (negsuc n) = 65535 - n

abbrev pub row_bytes : List Row → List ℕ
row_bytes [] = []
row_bytes (r ∷ rs) = 0x01 ∷ r.id ∷ word_of r.value / 256 ∷ word_of r.value % 256 ∷ row_bytes rs

signed16-word_of : (v : ℤ) → Fits16 v → signed16 (word_of v) ≡ v
signed16-word_of (pos n) h = ground arith
signed16-word_of (negsuc n) h = ground arith

word_of-lt : (v : ℤ) → Fits16 v → word_of v < 65536
word_of-lt (pos n) h = omega arith
word_of-lt (negsuc n) h = omega arith

get_u16-word_of : (v : ℤ) → Fits16 v → get_u16 (word_of v / 256) (word_of v % 256) ≡ word_of v
get_u16-word_of v h =
    let w = word_of v in
    omega (
      arith,
      word_of-lt v h,
      get_u16_lem (w / 256) (w % 256) (omega (arith, word_of-lt v h)) (omega arith),
    )

module _ (F : Float64) where
  abbrev pub row_readings : List Row → List (Reading F.Carrier)
  row_readings [] = []
  row_readings (r ∷ rs) = system F r.name (sixteenths F r.value) ∷ row_readings rs

  -- Rows of known sensors, with values from -32768 to 32767 sixteenths written as an int16 in
  -- big-endian order, are decoded as a reading for each, in order, under the sensor's name and
  -- with its value over sixteen.
  pub tlv_temps-row_bytes :
      (rows : List Row) (fit : All IsRow rows) → tlv_temps F (row_bytes rows) ≡ row_readings rows
  unfolding tlv_temps
  tlv_temps-row_bytes [] fit = refl
  tlv_temps-row_bytes (r ∷ rs) (h, fit) =
      let value = ap signed16 (get_u16-word_of r.value h.fits) ∙ signed16-word_of r.value h.fits in
      rw (h.known, tlv_temps)
        (ap (λ v. system F r.name (sixteenths F v) ∷ tlv_temps F (row_bytes rs)) value
          ∙ ap (◌∷◌ (system F r.name (sixteenths F r.value))) (tlv_temps-row_bytes rs fit))
