-- ===== src/Format/Ints.antt =====
-- Cells of integer columns: encodeInt and decodeInt are inverse, keep the order, and leave 0 to NULL.
use go_msi.Prelude.{
  ℕ, ◌+◌, ◌-◌, ◌*◌, ◌/◌, ◌%◌, ◌^◌, ◌≤◌, ◌<◌, ◌≡◌, ◌↔◌, arith, ltb, ◌==◌, if◌then◌else◌, bit_xor,
}
use go_msi.Prelude.Bits.{bit_xor-top}
use go_msi.Prelude.Int.{ℤ, pos, negsuc, pos_part, neg_part, ◌≤ℤ◌}
use go_msi.Format.{to_unsigned, to_signed, encode_int, decode_int}

-- Flipping the top bit of a word is adding half the modulus.
flip16 : (r : ℕ) → r < 2 ^ 16 → bit_xor r 0x8000 ≡ (r + 0x8000) % 2 ^ 16
flip16 r h = ground (arith, bit_xor-top 15 (r / 2 ^ 15) (r % 2 ^ 15))

flip32 : (r : ℕ) → r < 2 ^ 32 → bit_xor r 0x8000_0000 ≡ (r + 0x8000_0000) % 2 ^ 32
flip32 r h = ground (arith, bit_xor-top 31 (r / 2 ^ 31) (r % 2 ^ 31))

-- The integers that a column of the given size holds: two's complement of 16 or of 32 bits.
abbrev pub half_range : ℕ → ℕ
half_range size = if size == 2 then 2 ^ 15 else 2 ^ 31

abbrev pub Fits : ℕ → ℤ → Type 0
Fits size v = (pos_part v < half_range size) × (neg_part v ≤ half_range size)

-- The cells of a column of the given size.
abbrev pub IsCell : ℕ → ℕ → Type 0
IsCell size raw = raw < 2 * half_range size

unsigned16-lt : (v : ℤ) → to_unsigned 16 v < 2 ^ 16
unfolding to_unsigned
unsigned16-lt (pos n) = omega arith
unsigned16-lt (negsuc n) = omega arith

unsigned32-lt : (v : ℤ) → to_unsigned 32 v < 2 ^ 32
unfolding to_unsigned
unsigned32-lt (pos n) = omega arith
unsigned32-lt (negsuc n) = omega arith

-- encodeInt in plain arithmetic.
pub encode_int_lem :
    (v : ℤ) (size : ℕ)
    → encode_int v size ≡ (
        if size == 2
        then (to_unsigned 16 v + 2 ^ 15) % 2 ^ 16
        else (to_unsigned 32 v + 2 ^ 31) % 2 ^ 32)
unfolding encode_int
encode_int_lem v size =
    ground (
      arith,
      flip16 (to_unsigned 16 v),
      flip32 (to_unsigned 32 v),
      unsigned16-lt v,
      unsigned32-lt v,
    )

pub decode_int_lem :
    (raw size : ℕ)
    → IsCell size raw
    → decode_int raw size ≡ (
        if size == 2
        then (if ltb raw (2 ^ 15) then negsuc (2 ^ 15 - 1 - raw) else pos (raw - 2 ^ 15))
        else (if ltb raw (2 ^ 31) then negsuc (2 ^ 31 - 1 - raw) else pos (raw - 2 ^ 31)))
unfolding decode_int to_signed
decode_int_lem raw size h = ground (arith, flip16 raw, flip32 raw)

-- encodeInt writes a cell of an integer that fits the width; what decodeInt reads back from it is the
-- integer written. The cell is 0, which stands for NULL, only at the least integer of the width.
pub decode_int-encode_int :
    (v : ℤ) (size : ℕ)
    → Fits size v
    → (decode_int (encode_int v size) size ≡ v)
      × IsCell size (encode_int v size)
      × ((encode_int v size ≡ 0) ↔ (neg_part v ≡ half_range size))
unfolding to_unsigned
decode_int-encode_int (pos n) size h =
    ground (arith, encode_int_lem (pos n) size, decode_int_lem (encode_int (pos n) size) size)
decode_int-encode_int (negsuc n) size h =
    ground (arith, encode_int_lem (negsuc n) size, decode_int_lem (encode_int (negsuc n) size) size)

-- Every cell is what encodeInt writes for the integer that decodeInt reads from it, and that fits.
pub encode_int-decode_int :
    (raw size : ℕ)
    → IsCell size raw
    → Fits size (decode_int raw size) × (encode_int (decode_int raw size) size ≡ raw)
unfolding to_unsigned
encode_int-decode_int raw size h =
    ground (arith, decode_int_lem raw size, encode_int_lem (decode_int raw size) size)

-- Raw cells stand in the order of the integers that they hold.
pub decode_int_mono :
    (a b size : ℕ)
    → IsCell size a
    → IsCell size b
    → (decode_int a size ≤ℤ decode_int b size) ↔ (a ≤ b)
decode_int_mono a b size ha hb = ground (arith, decode_int_lem a size, decode_int_lem b size)
