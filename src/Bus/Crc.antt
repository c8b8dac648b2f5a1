-- ===== src/Bus/Crc.antt =====
-- bus/frame.go, crc16ARC. A byte and a 16-bit register are numbers.
pub mod Laws
use infinid.Prelude.{
  ℕ, zero, suc, ◌/◌, ◌<◌, bit_and, bit_xor, List, [], ◌∷◌, not, ◌==◌, if◌then◌else◌, All,
}

abbrev pub IsByte : ℕ → Type 0
IsByte b = b < 256

abbrev pub Bytes : List ℕ → Type 0
Bytes = All IsByte

-- The body of the inner loop: one shift, with the polynomial folded in when a 1 falls out.
crc_bit : ℕ → ℕ
crc_bit crc = if not (bit_and crc 1 == 0) then bit_xor (crc / 2) 0xa001 else crc / 2

-- `for i := 0; i < 8; i++`, by the rounds left.
crc_bits : ℕ → ℕ → ℕ
crc_bits zero crc = crc
crc_bits (suc n) crc = crc_bits n (crc_bit crc)

crc_byte : ℕ → ℕ → ℕ
unfolding crc_bits crc_bit
crc_byte crc b = crc_bits 8 (bit_xor crc b)

crc_from : ℕ → List ℕ → ℕ
crc_from crc [] = crc
crc_from crc (b ∷ bs) = crc_from (crc_byte crc b) bs

unfoldable pub crc16_arc : List ℕ → ℕ
unfolding crc_from crc_byte
crc16_arc bytes = crc_from 0 bytes
