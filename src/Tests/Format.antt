-- ===== src/Tests/Format.antt =====
-- Cells, type bit-fields and records.
use go_msi.Prelude.{
  ℕ, ◌*◌, ◌≤◌, ◌≡◌, ◌↔◌, refl, arith, inl, true, false, List, [], ◌∷◌, some, map, take, length,
}
use go_msi.Prelude.Int.{pos, negsuc, neg_part, ◌≤ℤ◌}
use go_msi.Prelude.Text.{Str}
use go_msi.Column.{Column, column_string, column_integer}
use go_msi.Format.{
  encode_int, decode_int, pack_type, unpack_type, unpacked, column_widths, total, to_unsigned,
}
use go_msi.Format.Ints.{
  half_range, Fits, IsCell, decode_int-encode_int, encode_int-decode_int, decode_int_mono,
}
use go_msi.Format.TypeBits.{unpack_type-pack_type, unpack_type-HasShape, HasShape}
use go_msi.Records.{encode_columns, encode_records, decode_records, decoded}
use go_msi.Records.RoundTrip.{All, CellsFit, decode_records-encode_records}

int_cells :
    map (λ v. encode_int v 2) (pos 0 ∷ pos 1 ∷ negsuc 0 ∷ negsuc 0x7fff ∷ [])
    ≡ 0x8000 ∷ 0x8001 ∷ 0x7fff ∷ 0 ∷ []
unfolding encode_int to_unsigned
int_cells = refl

decode_int-encode_int_example :
    (decode_int (encode_int (negsuc 4) 2) 2 ≡ negsuc 4)
    × IsCell 2 (encode_int (negsuc 4) 2)
    × ((encode_int (negsuc 4) 2 ≡ 0) ↔ (neg_part (negsuc 4) ≡ half_range 2))
decode_int-encode_int_example = decode_int-encode_int (negsuc 4) 2 (omega arith)

encode_int-decode_int_example :
    Fits 4 (decode_int 0x8000_0007 4) × (encode_int (decode_int 0x8000_0007 4) 4 ≡ 0x8000_0007)
encode_int-decode_int_example = encode_int-decode_int 0x8000_0007 4 (omega arith)

decode_int_mono_example : (decode_int 3 2 ≤ℤ decode_int 0x9000 2) ↔ (3 ≤ 0x9000)
decode_int_mono_example = decode_int_mono 3 0x9000 2 (omega arith) (omega arith)

abbrev key_column : Column
key_column = record {
  name = [];
  type = column_string;
  size = 72;
  primary_key = true;
  nullable = false;
  localizable = false;
  temporary = false;
  table = [];
}

abbrev short_column : Column
short_column = record key_column {
  type = column_integer;
  size = 2;
  primary_key = false;
  nullable = true;
}

packed : pack_type key_column ≡ 0x2d48
unfolding pack_type
packed = refl

unpack_type-pack_type_example : unpack_type (pack_type key_column) ≡ unpacked key_column
unpack_type-pack_type_example = unpack_type-pack_type key_column (omega arith)

unpacked_short : unpack_type 0x1502 ≡ unpacked short_column
unfolding unpack_type
unpacked_short = refl

unpack_type-HasShape_example : HasShape column_integer 2
unpack_type-HasShape_example = unpack_type-HasShape 0x1502 short_column unpacked_short

abbrev schema : List Column
schema = key_column ∷ short_column ∷ []

abbrev rows : List (List ℕ)
rows = (1 ∷ 0x8007 ∷ []) ∷ (2 ∷ 0 ∷ 9 ∷ []) ∷ []

-- Two columns of two records, one column behind the other.
encoded_rows : encode_records rows schema false ≡ some (1 ∷ 0 ∷ 2 ∷ 0 ∷ 7 ∷ 0x80 ∷ 0 ∷ 0 ∷ [])
unfolding encode_records encode_columns column_widths
encoded_rows = refl

rows_fit : All (CellsFit (column_widths schema false)) rows
unfolding column_widths
rows_fit = omega arith

decode_records-encode_records_example :
    (stream : Str) × (encode_records rows schema false ≡ some stream)
    × (length stream ≡ length rows * total (column_widths schema false))
    × (decode_records stream schema false ≡ decoded (map (take 2) rows))
decode_records-encode_records_example =
    decode_records-encode_records rows schema false (omega arith, (inl refl, tt)) (omega arith)
      rows_fit
