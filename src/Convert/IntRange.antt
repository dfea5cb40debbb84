-- ===== src/Convert/IntRange.antt =====
-- `set` of msidb/convert.go refuses exactly the integers that its variable cannot hold.
use go_msi.Prelude.{ℕ, ◌^◌, ◌&&◌, ltb, leb, ◌≤◌, ◌<◌, ◌≡◌, if◌then◌else◌, Bool, arith}
use go_msi.Prelude.Int.{ℤ, pos, negsuc, pos_part, neg_part}
use go_msi.Format.{to_unsigned, to_signed}
use go_msi.Errors.{ok, err, value_out_of_range}
use go_msi.Convert.Assign.{
  IntType, int8, int16, int32, int64, uint8, uint16, uint32, uint64, wrap_to, set_value,
}

-- The least integer of a type is the negative of the first number, the greatest is below the second.
abbrev pub limits : IntType → ℕ × ℕ
limits int8 = (2 ^ 7, 2 ^ 7)
limits int16 = (2 ^ 15, 2 ^ 15)
limits int32 = (2 ^ 31, 2 ^ 31)
limits int64 = (2 ^ 63, 2 ^ 63)
limits uint8 = (0, 2 ^ 8)
limits uint16 = (0, 2 ^ 16)
limits uint32 = (0, 2 ^ 32)
limits uint64 = (0, 2 ^ 64)

abbrev pub holds_int : IntType → ℤ → Bool
holds_int t n = leb (neg_part n) (limits t).0 && ltb (pos_part n) (limits t).1

-- The integers of 64 bits.
abbrev pub IsInt64 : ℤ → Type 0
IsInt64 n = (pos_part n < 2 ^ 63) × (neg_part n ≤ 2 ^ 63)

-- `set` of a 64-bit integer stores it if the variable's type holds it, and refuses it otherwise.
pub set_value_lem :
    (t : IntType) (n : ℤ)
    → IsInt64 n
    → set_value t n ≡ (if holds_int t n then ok n else err value_out_of_range)
unfolding set_value wrap_to to_unsigned to_signed
set_value_lem int8 (pos n) h = ground arith
set_value_lem int8 (negsuc n) h = ground arith
set_value_lem int16 (pos n) h = ground arith
set_value_lem int16 (negsuc n) h = ground arith
set_value_lem int32 (pos n) h = ground arith
set_value_lem int32 (negsuc n) h = ground arith
set_value_lem int64 (pos n) h = ground arith
set_value_lem int64 (negsuc n) h = ground arith
set_value_lem uint8 (pos n) h = ground arith
set_value_lem uint8 (negsuc n) h = ground arith
set_value_lem uint16 (pos n) h = ground arith
set_value_lem uint16 (negsuc n) h = ground arith
set_value_lem uint32 (pos n) h = ground arith
set_value_lem uint32 (negsuc n) h = ground arith
set_value_lem uint64 (pos n) h = ground arith
set_value_lem uint64 (negsuc n) h = ground arith
