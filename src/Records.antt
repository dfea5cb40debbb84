-- ===== src/Records.antt =====
-- msidb/encode.go and msidb/decode.go: the records of a table as a stream of bytes, one column
-- after the other.
pub mod RoundTrip
use go_msi.Prelude.{
  ℕ, zero, suc, ◌+◌, ◌*◌, ◌/◌, ◌%◌, ◌==◌, not, if◌then◌else◌, Bool, List, [], ◌∷◌, ◌++◌, Option,
  none, some, length, get_elem?, take, drop, replicate,
}
use go_msi.Prelude.Text.{Str}
use go_msi.Prelude.Panics.{◌>>=◌}
use go_msi.Column.{Column}
use go_msi.Format.{column_widths, total}

-- The bytes that the switch on the width reads or writes; its default is for 3.
unfoldable pub cell_size : ℕ → ℕ
cell_size w = if w == 2 then 2 else if w == 4 then 4 else 3

-- The n low bytes of a number, the lowest first.
unfoldable pub put_le : ℕ → ℕ → Str
put_le zero v = []
put_le (suc n) v = v % 256 ∷ put_le n (v / 256)

unfoldable pub get_le : Str → ℕ
get_le [] = 0
get_le (b ∷ bs) = b + 256 * get_le bs

-- One cell. A cell of 0 is skipped, which leaves the zeros of the fresh slice.
unfoldable pub encode_cell : ℕ → ℕ → Str
unfolding cell_size put_le
encode_cell w raw = if raw == 0 then replicate w 0 else put_le (cell_size w) raw

-- `none` is Go's panic on a record that is too short.
unfoldable pub encode_column : ℕ → ℕ → List (List ℕ) → Option Str
unfolding encode_cell
encode_column w c [] = some []
encode_column w c (rec ∷ recs) = do
  raw ← get_elem? rec c
  rest ← encode_column w c recs
  some (encode_cell w raw ++ rest)

-- The columns from `c` on, with their widths.
unfoldable pub encode_columns : List ℕ → ℕ → List (List ℕ) → Option Str
unfolding encode_column
encode_columns [] c recs = some []
encode_columns (w ∷ ws) c recs = do
  column ← encode_column w c recs
  rest ← encode_columns ws (suc c) recs
  some (column ++ rest)

unfoldable pub encode_records : List (List ℕ) → List Column → Bool → Option Str
encode_records recs schema long_refs = encode_columns (column_widths schema long_refs) 0 recs

-- Cells of width w, one behind the other: the number of them is given.
unfoldable pub decode_column : ℕ → ℕ → Str → List ℕ
unfolding cell_size get_le
decode_column w zero stream = []
decode_column w (suc n) stream =
    get_le (take (cell_size w) (take w stream)) ∷ decode_column w n (drop w stream)

-- `out[r][c] = cell` for every record.
unfoldable pub add_column : List ℕ → List (List ℕ) → List (List ℕ)
add_column [] rows = []
add_column (v ∷ vs) [] = []
add_column (v ∷ vs) (row ∷ rows) = (v ∷ row) ∷ add_column vs rows

unfoldable pub decode_columns : List ℕ → ℕ → Str → List (List ℕ)
unfolding decode_column add_column
decode_columns [] n stream = replicate n []
decode_columns (w ∷ ws) n stream =
    add_column (decode_column w n stream) (decode_columns ws n (drop (n * w) stream))

pub data Decoded : Type 0 where
  decoded : List (List ℕ) → Decoded
  bad_length : ℕ → ℕ → Decoded
  zero_divide : Decoded

-- `zero_divide` is Go's panic on `% 0`: a schema whose records have no bytes.
unfoldable pub decode_records : Str → List Column → Bool → Decoded
decode_records stream schema long_refs =
    let widths = column_widths schema long_refs in
    let record_size = total widths in
    if record_size == 0
    then zero_divide
    else if not (length stream % record_size == 0)
    then bad_length (length stream) record_size
    else decoded (decode_columns widths (length stream / record_size) stream)
