-- ===== src/Format/TypeBits.antt =====
-- The bit-field of a column's type: packType and unpackType are inverse.
use go_msi.Prelude.{
  ℕ, ◌+◌, ◌*◌, ◌/◌, ◌%◌, ◌≤◌, ◌<◌, ◌≡◌, ◌≢◌, ◌↔◌, ◌⊎◌, arith, ◌==◌, Bool, true, false, not,
  if◌then◌else◌, bit_and, bit_or, [], inl, inr,
}
use go_msi.Prelude.Bits.{bit_or-fields, bit_and-shifted, bit_and-mask, bit_and-bit}
use go_msi.Column.{Column, ColumnType, column_string, column_integer, column_binary, column_invalid}
use go_msi.Format.{
  pack_kind, pack_type, unpacked, bad_long, bad_short, unpack_kind, unpack_type, or_if,
}

and_kind : (t : ℕ) → bit_and t 0xc00 ≡ t / 0x400 % 4 * 0x400
and_kind t = ground (
  arith,
  bit_and-shifted 10 (t / 0x400) (t % 0x400) 3,
  bit_and-mask 2 (t / 0x400 / 4) (t / 0x400 % 4),
)

and_size : (t : ℕ) → bit_and t 0xff ≡ t % 256
and_size t = ground (arith, bit_and-mask 8 (t / 256) (t % 256))

abbrev bit : Bool → ℕ
bit true = 1
bit false = 0

-- The flags of a column, in units of 256.
abbrev flags : Column → ℕ
flags c =
    bit (not c.temporary) + bit c.nullable * 16 + bit c.primary_key * 32 + bit c.localizable * 2

or_flags :
    (p n k l : Bool)
    → or_if l 0x200 (or_if k 0x2000 (or_if n 0x1000 (or_if p 0x100 0)))
      ≡ (bit p + bit n * 16 + bit k * 32 + bit l * 2) * 256
or_flags p n k l = ground arith

-- The flags leave bits 10 and 11 and the low byte clear.
module _ (p n k l : Bool) where
  abbrev sum : ℕ
  sum = bit p + bit n * 16 + bit k * 32 + bit l * 2

  pack_string :
      (size : ℕ) → size < 256 → pack_kind column_string size (sum * 256) ≡ sum * 256 + 0xc00 + size
  unfolding pack_kind
  pack_string size h =
      ground
        (arith, and_size size, bit_or-fields 8 12 0 size, bit_or-fields 8 sum 12 size, or_kinds)
    where
      or_kinds : bit_or sum 12 ≡ sum + 12
      or_kinds = ground arith

  pack_binary : (size : ℕ) → pack_kind column_binary size (sum * 256) ≡ sum * 256 + 0x800
  unfolding pack_kind
  pack_binary size = ground arith

  pack_short : pack_kind column_integer 2 (sum * 256) ≡ sum * 256 + 0x400 + 2
  unfolding pack_kind
  pack_short = ground arith

  pack_long : pack_kind column_integer 4 (sum * 256) ≡ sum * 256 + 4
  unfolding pack_kind
  pack_long = ground arith

-- The columns that unpackType and columnFromDef make.
abbrev pub HasShape : ColumnType → ℕ → Type 0
HasShape column_string size = size < 256
HasShape column_integer size = (size ≡ 2) ⊎ (size ≡ 4)
HasShape column_binary size = size ≡ 0
HasShape column_invalid size = ⊥

-- The kind bits that packType writes.
abbrev kind_of : ColumnType → ℕ → ℕ
kind_of column_string size = 3 * 0x400
kind_of column_binary size = 2 * 0x400
kind_of column_integer size = if size == 2 then 0x400 else 0
kind_of column_invalid size = 0

-- packType in plain arithmetic.
pub pack_type_lem :
    (c : Column)
    → HasShape c.type c.size
    → pack_type c ≡ flags c * 256 + kind_of c.type c.size + c.size
unfolding pack_type
pack_type_lem c h = elim_type c.type c.size h
  where
    elim_type :
        (ty : ColumnType) (size : ℕ)
        → HasShape ty size
        → pack_kind ty size (
            or_if c.localizable 0x200 (
              or_if c.primary_key 0x2000
                (or_if c.nullable 0x1000 (or_if (not c.temporary) 0x100 0))))
          ≡ flags c * 256 + kind_of ty size + size
    elim_type column_string size s = rw or_flags (pack_string _ _ _ _ size s)
    elim_type column_binary size s =
        rw or_flags
          (omega (arith, pack_binary (not c.temporary) c.nullable c.primary_key c.localizable size))
    elim_type column_invalid size s = absurd s
    elim_type column_integer size (inl e) = rw (or_flags, e) (pack_short _ _ _ _)
    elim_type column_integer size (inr e) =
        rw (or_flags, e)
          (omega (arith, pack_long (not c.temporary) c.nullable c.primary_key c.localizable))

-- unpackType in plain arithmetic, on a field cut into flags, kind bits and size.
unpack_type_lem :
    (t : ℕ)
    → unpack_type t
      ≡ unpack_kind (t / 0x400 % 4 * 0x400) (record {
        name = [];
        type = column_invalid;
        size = t % 256;
        primary_key = not (t / 0x2000 % 2 * 0x2000 == 0);
        nullable = not (t / 0x1000 % 2 * 0x1000 == 0);
        localizable = not (t / 0x200 % 2 * 0x200 == 0);
        temporary = t / 0x100 % 2 * 0x100 == 0;
        table = [];
      })
unfolding unpack_type
unpack_type_lem t =
    rw (and_kind, and_size, bit_and-bit 13 t, bit_and-bit 12 t, bit_and-bit 9 t, bit_and-bit 8 t)

abbrev nameless : Column → Column
nameless c = record c { name = []; table = [] }

-- A bit-field cut up again.
cut_field :
    (p n k l : Bool) (kind size : ℕ)
    → kind < 4
    → size < 256
    → let t = sum p n k l * 256 + kind * 0x400 + size in
      (t / 0x400 % 4 ≡ kind)
      × (t % 256 ≡ size)
      × (t / 0x2000 % 2 ≡ bit k)
      × (t / 0x1000 % 2 ≡ bit n)
      × (t / 0x200 % 2 ≡ bit l)
      × (t / 0x100 % 2 ≡ bit p)
cut_field p n k l kind size hk hs =
    let hp = bit-le p in
    let hn = bit-le n in
    let hk' = bit-le k in
    let hl = bit-le l in
    (omega arith, omega arith, omega arith, omega arith, omega arith, omega arith)
  where
    bit-le : (b : Bool) → bit b ≤ 1
    bit-le true = omega arith
    bit-le false = omega arith

bit_set : (m : ℕ) (b : Bool) → 0 < m → not (bit b * m == 0) ≡ b
bit_set m true h = ground arith
bit_set m false h = ground arith

bit_clear : (m : ℕ) (b : Bool) → 0 < m → (bit (not b) * m == 0) ≡ b
bit_clear m true h = ground arith
bit_clear m false h = ground arith

-- What unpackType makes of a field that is cut up so.
unpack-fields :
    (c : Column) (kind size : ℕ)
    → kind < 4
    → size < 256
    → unpack_type (flags c * 256 + kind * 0x400 + size)
      ≡ unpack_kind (kind * 0x400) (record (nameless c) { type = column_invalid; size = size })
unpack-fields c kind size hk hs =
    let (f₀, f₁, f₂, f₃, f₄, f₅) =
      cut_field (not c.temporary) c.nullable c.primary_key c.localizable kind size hk hs in
    rw (unpack_type_lem, f₀, f₁, f₂, f₃, f₄, f₅)
      (rw (
        bit_set 0x2000 c.primary_key (omega arith),
        bit_set 0x1000 c.nullable (omega arith),
        bit_set 0x200 c.localizable (omega arith),
        bit_clear 0x100 c.temporary (omega arith),
      ))

-- unpackType reads back the column that packType wrote, apart from its names, which the bit-field
-- does not hold: for every column of a known type with the size that the type allows.
pub unpack_type-pack_type :
    (c : Column) → HasShape c.type c.size → unpack_type (pack_type c) ≡ unpacked (nameless c)
unfolding unpack_kind
unpack_type-pack_type c h = rw (pack_type_lem c h) (go c.type c.size h)
  where
    go :
        (ty : ColumnType) (size : ℕ)
        → HasShape ty size
        → unpack_type (flags c * 256 + kind_of ty size + size)
          ≡ unpacked (record (nameless c) { type = ty; size = size })
    go column_string size s = unpack-fields c 3 size (omega arith) s
    go column_binary size s = rw s (unpack-fields c 2 0 (omega arith) (omega arith))
    go column_integer size (inl e) = rw e (unpack-fields c 1 2 (omega arith) (omega arith))
    go column_integer size (inr e) = rw e (unpack-fields c 0 4 (omega arith) (omega arith))
    go column_invalid size s = absurd s

unpack_kind-cases :
    (kind : ℕ) (d c : Column)
    → unpack_kind kind d ≡ unpacked c
    → (c.size ≡ d.size)
      × ((c.type ≡ column_string)
          ⊎ ((c.type ≡ column_binary) × (c.size ≡ 0))
          ⊎ ((c.type ≡ column_integer) × ((c.size ≡ 2) ⊎ (c.size ≡ 4))))
unfolding unpack_kind
unpack_kind-cases kind d c e = ground arith

-- Whatever unpackType accepts has the size that its type allows.
pub unpack_type-HasShape :
    (t : ℕ) (c : Column) → unpack_type t ≡ unpacked c → HasShape c.type c.size
unpack_type-HasShape t c e = go (unpack_kind-cases _ _ c (rw unpack_type_lem at e))
  where
    go :
        (c.size ≡ t % 256)
          × ((c.type ≡ column_string)
              ⊎ ((c.type ≡ column_binary) × (c.size ≡ 0))
              ⊎ ((c.type ≡ column_integer) × ((c.size ≡ 2) ⊎ (c.size ≡ 4))))
        → HasShape c.type c.size
    go (z, inl ty) = rw ty (omega arith)
    go (z, inr (inl (ty, h))) = rw ty h
    go (z, inr (inr (ty, h))) = rw ty h

-- unpackType refuses exactly the integers whose size is not their kind's.
pub unpack_type_refuses :
    (t : ℕ)
    → (unpack_type t ≡ bad_long (t % 256) ⊎ unpack_type t ≡ bad_short (t % 256))
      ↔ ((t / 0x400 % 4 ≡ 0) × (t % 256 ≢ 4) ⊎ (t / 0x400 % 4 ≡ 1) × (t % 256 ≢ 2))
unfolding unpack_kind
unpack_type_refuses t = rw unpack_type_lem (ground arith)
