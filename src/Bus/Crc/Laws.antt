-- ===== src/Bus/Crc/Laws.antt =====
-- The checksum's range, and changes of a single byte.
use infinid.Bus.Crc.{IsByte, Bytes, crc_bit, crc_bits, crc_byte, crc_from, crc16_arc}
use infinid.Prelude.{
  ℕ, zero, suc, ◌+◌, ◌*◌, ◌/◌, ◌<◌, ◌≡◌, ◌≢◌, sym, ap, ◌∙◌, bit_xor, List, [], ◌∷◌, ◌++◌, ltb,
  if◌then◌else◌, arith,
}
use infinid.Prelude.Bits.{xor_undo, xor-lt, le-xor, xor_comm, and_one}

crc_bit-lt : (crc : ℕ) → crc < 65536 → crc_bit crc < 65536
unfolding crc_bit
crc_bit-lt crc h = ground (arith, xor-lt 16 (crc / 2) 0xa001)

crc_bits-lt : (n crc : ℕ) → crc < 65536 → crc_bits n crc < 65536
unfolding crc_bits
crc_bits-lt zero crc h = h
crc_bits-lt (suc n) crc h = crc_bits-lt n (crc_bit crc) (crc_bit-lt crc h)

crc_byte-lt : (crc b : ℕ) → crc < 65536 → IsByte b → crc_byte crc b < 65536
unfolding crc_byte
crc_byte-lt crc b h hb = crc_bits-lt 8 (bit_xor crc b) (xor-lt 16 crc b h (omega arith))

crc_from-lt : (crc : ℕ) (bs : List ℕ) → crc < 65536 → Bytes bs → crc_from crc bs < 65536
unfolding crc_from
crc_from-lt crc [] h hb = h
crc_from-lt crc (b ∷ bs) h hb = crc_from-lt (crc_byte crc b) bs (crc_byte-lt crc b h hb.0) hb.1

pub crc16_arc-lt : (bs : List ℕ) → Bytes bs → crc16_arc bs < 65536
unfolding crc16_arc
crc16_arc-lt bs hb = crc_from-lt 0 bs (omega arith) hb

-- A shift of the register loses nothing: the top bit of the result tells whether a 1 fell out.
uncrc_bit : ℕ → ℕ
uncrc_bit y = if ltb y 32768 then y * 2 else bit_xor y 0xa001 * 2 + 1

uncrc_bit-crc_bit : (crc : ℕ) → crc < 65536 → uncrc_bit (crc_bit crc) ≡ crc
unfolding crc_bit uncrc_bit
uncrc_bit-crc_bit crc h =
    ground (arith, and_one crc, le-xor 15 (crc / 2) 0xa001, xor_undo (crc / 2) 0xa001)

crc_bit-injective : (x y : ℕ) → x < 65536 → y < 65536 → crc_bit x ≡ crc_bit y → x ≡ y
crc_bit-injective x y p q e = sym (uncrc_bit-crc_bit x p) ∙ ap uncrc_bit e ∙ uncrc_bit-crc_bit y q

crc_bits-injective : (n x y : ℕ) → x < 65536 → y < 65536 → crc_bits n x ≡ crc_bits n y → x ≡ y
unfolding crc_bits
crc_bits-injective zero x y p q e = e
crc_bits-injective (suc n) x y p q e =
    crc_bit-injective x y p q
      (crc_bits-injective n (crc_bit x) (crc_bit y) (crc_bit-lt x p) (crc_bit-lt y q) e)

xor_cancel_right : (x y b : ℕ) → bit_xor x b ≡ bit_xor y b → x ≡ y
xor_cancel_right x y b e = sym (xor_undo x b) ∙ ap (λ (t : ℕ). bit_xor t b) e ∙ xor_undo y b

xor_cancel_left : (c x y : ℕ) → bit_xor c x ≡ bit_xor c y → x ≡ y
xor_cancel_left c x y e = xor_cancel_right x y c (xor_comm x c ∙ e ∙ xor_comm c y)

-- One byte into two registers: they differ afterwards if they differed before.
crc_byte-injective :
    (x y b : ℕ) → x < 65536 → y < 65536 → IsByte b → crc_byte x b ≡ crc_byte y b → x ≡ y
unfolding crc_byte
crc_byte-injective x y b p q h e = xor_cancel_right x y b (
    crc_bits-injective 8 (bit_xor x b) (bit_xor y b) (xor-lt 16 x b p (omega arith))
      (xor-lt 16 y b q (omega arith)) e)

-- Two bytes into one register: it tells them apart.
crc_byte-injective_byte :
    (c x y : ℕ) → c < 65536 → IsByte x → IsByte y → crc_byte c x ≡ crc_byte c y → x ≡ y
unfolding crc_byte
crc_byte-injective_byte c x y p hx hy e = xor_cancel_left c x y (
    crc_bits-injective 8 (bit_xor c x) (bit_xor c y) (xor-lt 16 c x p (omega arith))
      (xor-lt 16 c y p (omega arith)) e)

crc_from-injective :
    (x y : ℕ) (bs : List ℕ)
    → x < 65536
    → y < 65536
    → Bytes bs
    → crc_from x bs ≡ crc_from y bs
    → x ≡ y
unfolding crc_from
crc_from-injective x y [] p q h e = e
crc_from-injective x y (b ∷ bs) p q h e = crc_byte-injective x y b p q h.0 (
    crc_from-injective (crc_byte x b) (crc_byte y b) bs (crc_byte-lt x b p h.0)
      (crc_byte-lt y b q h.0) h.1 e)

-- A change of one byte, anywhere, changes the register.
crc_from_single :
    (c : ℕ) (front : List ℕ) (x y : ℕ) (back : List ℕ)
    → c < 65536
    → Bytes (front ++ x ∷ back)
    → IsByte y
    → crc_from c (front ++ x ∷ back) ≡ crc_from c (front ++ y ∷ back)
    → x ≡ y
unfolding crc_from
crc_from_single c [] x y back p h hy e = crc_byte-injective_byte c x y p h.0 hy (
    crc_from-injective (crc_byte c x) (crc_byte c y) back (crc_byte-lt c x p h.0)
      (crc_byte-lt c y p hy) h.1 e)
crc_from_single c (b ∷ front) x y back p h hy e =
    crc_from_single (crc_byte c b) front x y back (crc_byte-lt c b p h.0) h.1 hy e

pub crc16_arc_single :
    (front : List ℕ) (x y : ℕ) (back : List ℕ)
    → Bytes (front ++ x ∷ back)
    → IsByte y
    → x ≢ y
    → crc16_arc (front ++ x ∷ back) ≢ crc16_arc (front ++ y ∷ back)
unfolding crc16_arc
crc16_arc_single front x y back h hy ne e =
    ne (crc_from_single 0 front x y back (omega arith) h hy e)
