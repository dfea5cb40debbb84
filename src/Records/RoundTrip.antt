-- ===== src/Records/RoundTrip.antt =====
-- What encodeRecords writes, decodeRecords reads back.
use go_msi.Prelude.{
  ℕ, zero, suc, ◌*◌, ◌/◌, ◌%◌, ◌^◌, ◌≤◌, ◌<◌, ◌==◌, ◌≡◌, refl, ap, ◌∙◌, arith, if◌then◌else◌, Bool,
  List, [], ◌∷◌, ◌++◌, some, length, get_elem?, take, drop, take-append_left, drop-append_left,
  replicate, length-append, append_assoc, map, length-replicate,
}
use native.Mathlib.Nat.{pow-suc, mul-mod_left, mul-div_left}
use mathlib.Core.List.{append-nil}
use go_msi.Prelude.Text.{Str}
use go_msi.Column.{Column, ColumnType, column_string, column_integer, column_binary, column_invalid}
use go_msi.Format.TypeBits.{HasShape}
use go_msi.Format.{column_width, column_widths, total}
use go_msi.Prelude.Panics.{◌>>=◌}
use go_msi.Records.{
  cell_size, put_le, get_le, encode_cell, encode_column, encode_columns, encode_records,
  decode_column, add_column, decode_columns, decoded, decode_records,
}

length-put_le : (n v : ℕ) → length (put_le n v) ≡ n
unfolding put_le
length-put_le zero v = refl
length-put_le (suc n) v = ap suc (length-put_le n (v / 256))

get_le-put_le : (n v : ℕ) → v < 256 ^ n → get_le (put_le n v) ≡ v
unfolding put_le get_le
get_le-put_le zero v h = omega arith
get_le-put_le (suc n) v h =
    ground (arith, pow-suc 256 n, get_le-put_le n (v / 256) (omega (arith, pow-suc 256 n)))

get_le-zeros : (n : ℕ) → get_le (replicate n 0) ≡ 0
unfolding get_le
get_le-zeros zero = refl
get_le-zeros (suc n) = omega (arith, get_le-zeros n)

-- The widths of columns of a known type.
abbrev pub IsWidth : ℕ → Type 0
IsWidth w = (2 ≤ w) × (w ≤ 4)

take-append {ℓ} : {A : Type ℓ} (n : ℕ) (xs ys : List A) → length xs ≡ n → take n (xs ++ ys) ≡ xs
take-append n xs ys h = rw (← h) (take-append_left xs ys)

drop-append {ℓ} : {A : Type ℓ} (n : ℕ) (xs ys : List A) → length xs ≡ n → drop n (xs ++ ys) ≡ ys
drop-append n xs ys h = rw (← h) (drop-append_left xs ys)

take_all {ℓ} : {A : Type ℓ} (n : ℕ) (xs : List A) → length xs ≡ n → take n xs ≡ xs
take_all n xs h = rw append-nil at (take-append n xs [] h)

cell_size-width : (w : ℕ) → IsWidth w → cell_size w ≡ w
unfolding cell_size
cell_size-width w h = ground arith

-- A cell of a column of a known type is written in its width, also the cell 0 that is skipped.
encode_cell-lem :
    (w raw : ℕ) → IsWidth w → encode_cell w raw ≡ (if raw == 0 then replicate w 0 else put_le w raw)
unfolding encode_cell
encode_cell-lem w raw h = ground arith

length-encode_cell : (w raw : ℕ) → IsWidth w → length (encode_cell w raw) ≡ w
length-encode_cell w raw h =
    rw (encode_cell-lem w raw h) (ground (arith, length-put_le w raw, length-replicate {A = ℕ} w 0))

-- One cell comes back.
get_le-encode_cell : (w raw : ℕ) → IsWidth w → raw < 256 ^ w → get_le (encode_cell w raw) ≡ raw
get_le-encode_cell w raw h fits =
    rw (encode_cell-lem w raw h) (ground (arith, get_le-put_le w raw fits, get_le-zeros w))

decode_column_step :
    (w v n : ℕ) (rest : Str)
    → IsWidth w
    → v < 256 ^ w
    → decode_column w (suc n) (encode_cell w v ++ rest) ≡ v ∷ decode_column w n rest
unfolding decode_column
decode_column_step w v n rest hw fits =
    let lc = length-encode_cell w v hw in
    rw (
      take-append w _ rest lc,
      drop-append w _ rest lc,
      cell_size-width w hw,
      take_all w _ lc,
      get_le-encode_cell w v hw fits,
    )

-- The cells of a record from column `c` on fit the widths.
abbrev pub CellsFit : List ℕ → List ℕ → Type 0
CellsFit [] cells = Unit
CellsFit (w ∷ ws) [] = ⊥
CellsFit (w ∷ ws) (v ∷ vs) = (v < 256 ^ w) × CellsFit ws vs

abbrev pub All {ℓ κ} : {A : Type ℓ} → (A → Type κ) → List A → Type κ
All P [] = Unit
All P (x ∷ xs) = P x × All P xs

-- What is left of every record past its first `c` cells.
CellsFit-head :
    (w : ℕ) (ws rec : List ℕ) (c : ℕ)
    → CellsFit (w ∷ ws) (drop c rec)
    → (v : ℕ) × (get_elem? rec c ≡ some v)
      × (drop c rec ≡ v ∷ drop (suc c) rec)
      × (v < 256 ^ w)
      × CellsFit ws (drop (suc c) rec)
CellsFit-head w ws [] zero h = absurd h
CellsFit-head w ws [] (suc c) h = absurd h
CellsFit-head w ws (v ∷ vs) zero h = (v, refl, refl, h.0, h.1)
CellsFit-head w ws (v ∷ vs) (suc c) h = CellsFit-head w ws vs c h

abbrev head_or_zero : List ℕ → ℕ
head_or_zero [] = 0
head_or_zero (v ∷ vs) = v

-- One column: it has its size, and its cells come back whatever follows.
decode_columns_cons :
    (w : ℕ) (ws : List ℕ) (n : ℕ) (stream : Str)
    → decode_columns (w ∷ ws) n stream
      ≡ add_column (decode_column w n stream) (decode_columns ws n (drop (n * w) stream))
unfolding decode_columns
decode_columns_cons w ws n stream = refl

record ColumnWritten (w c : ℕ) (recs : List (List ℕ)) : Type 0 where
  column : Str
  written : encode_column w c recs ≡ some column
  size : length column ≡ length recs * w
  reads :
      (rest : Str)
      → decode_column w (length recs) (column ++ rest) ≡ map (λ rec. head_or_zero (drop c rec)) recs

encode_column_step :
    (w c : ℕ) (rec : List ℕ) (recs : List (List ℕ)) (v : ℕ) (rest : Str)
    → get_elem? rec c ≡ some v
    → encode_column w c recs ≡ some rest
    → encode_column w c (rec ∷ recs) ≡ some (encode_cell w v ++ rest)
unfolding encode_column
encode_column_step w c rec recs v rest e f = rw (e, ◌>>=◌, f)

encode_column_lem :
    (w : ℕ) (ws : List ℕ) (c : ℕ) (recs : List (List ℕ))
    → IsWidth w
    → All (λ rec. CellsFit (w ∷ ws) (drop c rec)) recs
    → ColumnWritten w c recs
encode_column_lem w ws c [] hw h = record {
  column = [];
  written = unfold encode_column in refl;
  size = omega arith;
  reads = λ rest. unfold decode_column in refl;
}
encode_column_lem w ws c (rec ∷ recs) hw (h, hs) =
    let (v, found, cut, fits, more) = CellsFit-head w ws rec c h in
    let tail = encode_column_lem w ws c recs hw hs in
    let cell = encode_cell w v in
    record {
      column = cell ++ tail.column;
      written = encode_column_step w c rec recs v tail.column found tail.written;
      size = rw length-append (omega (arith, tail.size, length-encode_cell w v hw));
      reads = λ rest. rw (
        append_assoc cell tail.column rest,
        decode_column_step w v (length recs) (tail.column ++ rest) hw fits,
        cut,
        tail.reads rest,
      );
    }

-- The cells of each record from column `c` on, as many as there are widths.
abbrev pub cut : ℕ → ℕ → List (List ℕ) → List (List ℕ)
cut c n recs = map (λ rec. take n (drop c rec)) recs

add_column-cut :
    (w : ℕ) (ws : List ℕ) (c n : ℕ) (recs : List (List ℕ))
    → All (λ rec. CellsFit (w ∷ ws) (drop c rec)) recs
    → add_column (map (λ rec. head_or_zero (drop c rec)) recs) (cut (suc c) n recs)
      ≡ cut c (suc n) recs
unfolding add_column
add_column-cut w ws c n [] h = refl
add_column-cut w ws c n (rec ∷ recs) (h, hs) =
    let (v, found, split, fits, more) = CellsFit-head w ws rec c h in
    rw (split, add_column-cut w ws c n recs hs)

All-rest :
    (w : ℕ) (ws : List ℕ) (c : ℕ) (recs : List (List ℕ))
    → All (λ rec. CellsFit (w ∷ ws) (drop c rec)) recs
    → All (λ rec. CellsFit ws (drop (suc c) rec)) recs
All-rest w ws c [] h = tt
All-rest w ws c (rec ∷ recs) (h, hs) = ((CellsFit-head w ws rec c h).4, All-rest w ws c recs hs)

cut-zero : (c : ℕ) (recs : List (List ℕ)) → replicate (length recs) [] ≡ cut c 0 recs
cut-zero c [] = refl
cut-zero c (rec ∷ recs) = ap (◌∷◌ []) (cut-zero c recs)

encode_columns_step :
    (w : ℕ) (ws : List ℕ) (c : ℕ) (recs : List (List ℕ)) (column rest : Str)
    → encode_column w c recs ≡ some column
    → encode_columns ws (suc c) recs ≡ some rest
    → encode_columns (w ∷ ws) c recs ≡ some (column ++ rest)
unfolding encode_columns
encode_columns_step w ws c recs column rest e f = rw (e, ◌>>=◌, f)

decode_columns_step :
    (w : ℕ) (ws : List ℕ) (c : ℕ) (recs : List (List ℕ)) (column rest : Str)
    → All (λ rec. CellsFit (w ∷ ws) (drop c rec)) recs
    → length column ≡ length recs * w
    → decode_column w (length recs) (column ++ rest) ≡ map (λ rec. head_or_zero (drop c rec)) recs
    → decode_columns ws (length recs) rest ≡ cut (suc c) (length ws) recs
    → decode_columns (w ∷ ws) (length recs) (column ++ rest) ≡ cut c (suc (length ws)) recs
decode_columns_step w ws c recs column rest h size e f =
    decode_columns_cons w ws (length recs) (column ++ rest)
    ∙ rw (e, drop-append (length recs * w) column rest size, f)
        (add_column-cut w ws c (length ws) recs h)

record ColumnsWritten (ws : List ℕ) (c : ℕ) (recs : List (List ℕ)) : Type 0 where
  stream : Str
  written : encode_columns ws c recs ≡ some stream
  size : length stream ≡ length recs * total ws
  reads : (rest : Str) → decode_columns ws (length recs) (stream ++ rest) ≡ cut c (length ws) recs

encode_columns_lem :
    (ws : List ℕ) (c : ℕ) (recs : List (List ℕ))
    → All IsWidth ws
    → All (λ rec. CellsFit ws (drop c rec)) recs
    → ColumnsWritten ws c recs
encode_columns_lem [] c recs hw h = record {
  stream = [];
  written = unfold encode_columns in refl;
  size = unfold total in omega arith;
  reads = λ rest. unfold decode_columns in cut-zero c recs;
}
encode_columns_lem (w ∷ ws) c recs (hw, hws) h =
    let first = encode_column_lem w ws c recs hw h in
    let others = encode_columns_lem ws (suc c) recs hws (All-rest w ws c recs h) in
    record {
      stream = first.column ++ others.stream;
      written =
          encode_columns_step w ws c recs first.column others.stream first.written others.written;
      size = rw (length-append, first.size, others.size) (unfold total in grind arith);
      reads = λ rest. rw append_assoc (
          decode_columns_step w ws c recs first.column (others.stream ++ rest) h first.size
            (first.reads (others.stream ++ rest)) (others.reads rest));
    }

length-column_widths :
    (schema : List Column) (long_refs : Bool)
    → length (column_widths schema long_refs) ≡ length schema
unfolding column_widths
length-column_widths [] long_refs = refl
length-column_widths (c ∷ cs) long_refs = ap suc (length-column_widths cs long_refs)

column_width-IsWidth :
    (c : Column) (long_refs : Bool) → HasShape c.type c.size → IsWidth (column_width long_refs c)
column_width-IsWidth c long_refs h = ty c.type c.size h
  where
    ty :
        (t : ColumnType) (size : ℕ)
        → HasShape t size
        → IsWidth (column_width long_refs (record c { type = t; size = size }))
    ty column_string size s = unfold column_width in ground arith
    ty column_integer size s = unfold column_width in ground arith
    ty column_binary size s = unfold column_width in ground arith
    ty column_invalid size s = absurd s

column_widths-IsWidth :
    (schema : List Column) (long_refs : Bool)
    → All (λ c. HasShape c.type c.size) schema
    → All IsWidth (column_widths schema long_refs)
unfolding column_widths
column_widths-IsWidth [] long_refs h = tt
column_widths-IsWidth (c ∷ cs) long_refs (h, hs) =
    (column_width-IsWidth c long_refs h, column_widths-IsWidth cs long_refs hs)

total-pos : (ws : List ℕ) → All IsWidth ws → 0 < length ws → 0 < total ws
unfolding total
total-pos [] h p = absurd (omega arith)
total-pos (w ∷ ws) (h, hs) p = omega arith

-- A stream of n whole records is decoded as n records.
decode_records_lem :
    (stream : Str) (schema : List Column) (long_refs : Bool) (n : ℕ)
    → 0 < total (column_widths schema long_refs)
    → length stream ≡ n * total (column_widths schema long_refs)
    → decode_records stream schema long_refs
      ≡ decoded (decode_columns (column_widths schema long_refs) n stream)
decode_records_lem stream schema long_refs n pos size =
    let ws = column_widths schema long_refs in
    let even : n * total ws % total ws ≡ 0 = mul-mod_left n (total ws) in
    let count : n * total ws / total ws ≡ n = mul-div_left n pos in
    unfold decode_records in
    rw size (ground (arith, even, count, ap (λ (k : ℕ). decode_columns ws k stream) count))

-- For a schema of columns of known types, and records that have a cell for each of its columns
-- which fits the column's width: encodeRecords does not fail, its stream has one record size for
-- each record, and decodeRecords reads from it the cells of those columns, record for record.
-- Further cells of a record, those of temporary columns, are left out.
pub decode_records-encode_records :
    (recs : List (List ℕ)) (schema : List Column) (long_refs : Bool)
    → All (λ c. HasShape c.type c.size) schema
    → 0 < length schema
    → All (CellsFit (column_widths schema long_refs)) recs
    → (stream : Str) × (encode_records recs schema long_refs ≡ some stream)
      × (length stream ≡ length recs * total (column_widths schema long_refs))
      × (decode_records stream schema long_refs ≡ decoded (map (take (length schema)) recs))
decode_records-encode_records recs schema long_refs shapes filled fits =
    let ws = column_widths schema long_refs in
    let hw = column_widths-IsWidth schema long_refs shapes in
    let all = encode_columns_lem ws 0 recs hw fits in
    (
      all.stream,
      unfold encode_records in all.written,
      all.size,
      decode_records_lem all.stream schema long_refs (length recs)
            (total-pos ws hw (rw length-column_widths filled)) all.size
          ∙ ap decoded (rw (length-column_widths, append-nil) at (all.reads [])),
    )
