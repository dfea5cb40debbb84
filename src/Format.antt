-- ===== src/Format.antt =====
-- msidb/format.go: the cells of integers, the bits of a column's type, reserved names, widths.
pub mod Ints
pub mod TypeBits
use go_msi.Prelude.{
  ℕ, ◌+◌, ◌-◌, ◌%◌, ◌^◌, ◌==◌, ◌||◌, ◌&&◌, ltb, leb, not, if◌then◌else◌, Bool, true, false, List,
  [], ◌∷◌, bit_and, bit_or, bit_xor,
}
use go_msi.Prelude.Int.{ℤ, pos, negsuc}
use go_msi.Prelude.Text.{Str, bytes, eq_str}
use go_msi.Column.{Column, ColumnType, column_string, column_integer, column_binary, column_invalid}

-- uint16(v) and uint32(v): the value modulo 2 ^ w.
unfoldable pub to_unsigned : ℕ → ℤ → ℕ
to_unsigned w (pos n) = n % 2 ^ w
to_unsigned w (negsuc n) = 2 ^ w - 1 - n % 2 ^ w

-- int16(x) and int32(x), of the low w bits: the top bit, half of 2 ^ w, is the sign.
unfoldable pub to_signed : ℕ → ℕ → ℕ → ℤ
to_signed w half x = let r = x % 2 ^ w in if ltb r half then pos r else negsuc (2 ^ w - 1 - r)

unfoldable pub encode_int : ℤ → ℕ → ℕ
encode_int v size =
    if size == 2 then bit_xor (to_unsigned 16 v) 0x8000 else bit_xor (to_unsigned 32 v) 0x8000_0000

unfoldable pub decode_int : ℕ → ℕ → ℤ
decode_int raw size =
    if size == 2
    then to_signed 16 0x8000 (bit_xor raw 0x8000)
    else to_signed 32 0x8000_0000 (bit_xor raw 0x8000_0000)

abbrev pub type_size_mask : ℕ
type_size_mask = 0xff

abbrev pub type_persistent : ℕ
type_persistent = 0x100

abbrev pub type_localizable : ℕ
type_localizable = 0x200

abbrev pub type_kind_mask : ℕ
type_kind_mask = 0xc00

abbrev pub type_long_int : ℕ
type_long_int = 0

abbrev pub type_short_int : ℕ
type_short_int = 0x400

abbrev pub type_binary : ℕ
type_binary = 0x800

abbrev pub type_string : ℕ
type_string = 0xc00

abbrev pub type_nullable : ℕ
type_nullable = 0x1000

abbrev pub type_key : ℕ
type_key = 0x2000

-- `if b { t |= flag }`
abbrev pub or_if : Bool → ℕ → ℕ → ℕ
or_if b flag t = if b then bit_or t flag else t

-- The switch of packType on the column's type.
unfoldable pub pack_kind : ColumnType → ℕ → ℕ → ℕ
pack_kind column_integer size t =
    or_if (size == 2) type_short_int (bit_or t (bit_and (size % 2 ^ 16) type_size_mask))
pack_kind column_binary size t = bit_or t type_binary
pack_kind column_string size t =
    bit_or t (bit_or type_string (bit_and (size % 2 ^ 16) type_size_mask))
pack_kind column_invalid size t = t

unfoldable pub pack_type : Column → ℕ
unfolding pack_kind
pack_type c =
    let t = or_if (not c.temporary) type_persistent 0 in
    let t = or_if c.nullable type_nullable t in
    let t = or_if c.primary_key type_key t in
    let t = or_if c.localizable type_localizable t in pack_kind c.type c.size t

-- What unpackType answers: a column, or the integer's kind with the size found and the size wanted.
pub data Unpacked : Type 0 where
  unpacked : Column → Unpacked
  bad_long : ℕ → Unpacked
  bad_short : ℕ → Unpacked

-- The switch of unpackType on the kind bits.
unfoldable pub unpack_kind : ℕ → Column → Unpacked
unpack_kind kind c =
    if kind == type_long_int
    then (if c.size == 4 then unpacked (record c { type = column_integer }) else bad_long c.size)
    else if kind == type_short_int
    then (if c.size == 2 then unpacked (record c { type = column_integer }) else bad_short c.size)
    else if kind == type_binary
    then (if c.size == 0
        then unpacked (record c { type = column_binary })
        else unpacked (record c { type = column_string }))
    else unpacked (record c { type = column_string })

unfoldable pub unpack_type : ℕ → Unpacked
unfolding unpack_kind
unpack_type t = unpack_kind (bit_and t type_kind_mask) (record {
  name = [];
  type = column_invalid;
  size = bit_and t type_size_mask;
  primary_key = not (bit_and t type_key == 0);
  nullable = not (bit_and t type_nullable == 0);
  localizable = not (bit_and t type_localizable == 0);
  temporary = bit_and t type_persistent == 0;
  table = [];
})

abbrev pub system_table_tables : Str
system_table_tables = bytes "_Tables"

abbrev pub system_table_columns : Str
system_table_columns = bytes "_Columns"

abbrev pub system_table_streams : Str
system_table_streams = bytes "_Streams"

abbrev pub system_table_storages : Str
system_table_storages = bytes "_Storages"

abbrev pub string_pool_name : Str
string_pool_name = bytes "_StringPool"

abbrev pub string_data_name : Str
string_data_name = bytes "_StringData"

unfoldable pub is_reserved_name : Str → Bool
unfolding eq_str
is_reserved_name name =
    eq_str name system_table_tables
    || eq_str name system_table_columns
    || eq_str name system_table_streams
    || eq_str name system_table_storages
    || eq_str name string_pool_name
    || eq_str name string_data_name

unfoldable pub is_system_table : Str → Bool
unfolding eq_str
is_system_table name =
    eq_str name system_table_tables
    || eq_str name system_table_columns
    || eq_str name system_table_streams

unfoldable pub is_read_only_table : Str → Bool
unfolding eq_str
is_read_only_table name = eq_str name system_table_tables || eq_str name system_table_columns

-- One entry of columnWidths. A column of no type keeps the 0 of a fresh slice.
unfoldable pub column_width : Bool → Column → ℕ
column_width long_refs c = elim c.type [
  | column_integer ↦ c.size
  | column_binary ↦ 2
  | column_string ↦ if long_refs then 3 else 2
  | column_invalid ↦ 0
]

unfoldable pub column_widths : List Column → Bool → List ℕ
unfolding column_width
column_widths [] long_refs = []
column_widths (c ∷ cs) long_refs = column_width long_refs c ∷ column_widths cs long_refs

unfoldable pub total : List ℕ → ℕ
total [] = 0
total (w ∷ ws) = w + total ws
