-- ===== src/Convert/Assign.antt =====
-- msidb/convert.go: cells of integer and string columns assigned to a caller's variables, for the
-- types of variables that the type switches list.
use go_msi.Prelude.{
  ℕ, ◌==◌, ◌&&◌, ◌||◌, ◌+◌, not, if◌then◌else◌, Bool, false, List, [], Option, none, some,
}
use go_msi.Prelude.Int.{ℤ, pos, pos_part, neg_part, ltb_ℤ}
use go_msi.Prelude.Text.{Str}
use go_msi.Format.{to_unsigned, to_signed, decode_int}
use go_msi.Errors.{
  Problem, Result, ok, err, value_out_of_range, null_into_integer, not_an_integer, cannot_scan,
}
use go_msi.Convert.{Parsed, parsed, bad_syntax, out_of_range, parse_int, format_int}

-- Go's integer types; int and uint have 64 bits.
pub data IntType : Type 0 where
  int8 int16 int32 int64 uint8 uint16 uint32 uint64 : IntType

-- T(n), by which Go keeps the low bits.
unfoldable pub wrap_to : IntType → ℤ → ℤ
wrap_to int8 n = to_signed 8 0x80 (to_unsigned 8 n)
wrap_to int16 n = to_signed 16 0x8000 (to_unsigned 16 n)
wrap_to int32 n = to_signed 32 0x8000_0000 (to_unsigned 32 n)
wrap_to int64 n = to_signed 64 0x8000_0000_0000_0000 (to_unsigned 64 n)
wrap_to uint8 n = pos (to_unsigned 8 n)
wrap_to uint16 n = pos (to_unsigned 16 n)
wrap_to uint32 n = pos (to_unsigned 32 n)
wrap_to uint64 n = pos (to_unsigned 64 n)

abbrev pub equal_ints : ℤ → ℤ → Bool
equal_ints a b = pos_part a + neg_part b == pos_part b + neg_part a

-- `set`: the value that the variable gets.
unfoldable pub set_value : IntType → ℤ → Result Problem ℤ
unfolding wrap_to
set_value t n =
    let v = wrap_to t n in
    if not (equal_ints (wrap_to int64 v) n) || (ltb_ℤ n (pos 0) && ltb_ℤ (pos 0) v)
    then err value_out_of_range
    else ok v

-- setInt, through a pointer that is not nil.
unfoldable pub set_int : IntType → ℕ → ℕ → Result Problem ℤ
unfolding set_value
set_int t raw size = if raw == 0 then err null_into_integer else set_value t (decode_int raw size)

-- A variable behind a pointer after an assignment: what it holds now, and the error if there was one.
pub record Assigned (A : Type 0) : Type 0 where
  pub value : A
  pub error : Option Problem

-- `*d = …` on success; on an error the variable keeps `old`.
abbrev pub store_result : {A B : Type 0} → (A → B) → B → Result Problem A → Assigned B
store_result f old (ok a) = record { value = f a; error = none }
store_result f old (err e) = record { value = old; error = some e }

-- setNullInt: the pointer is nil when the cell is NULL, and after an error.
unfoldable pub set_null_int : IntType → ℕ → ℕ → Assigned (Option ℤ)
unfolding set_int
set_null_int t raw size =
    if raw == 0
    then record { value = none; error = none }
    else store_result some none (set_int t raw size)

unfoldable pub int_of_parsed : IntType → Parsed → Result Problem ℤ
unfolding set_value
int_of_parsed t (parsed n) = set_value t n
int_of_parsed t bad_syntax = err not_an_integer
int_of_parsed t out_of_range = err not_an_integer

-- parseInt
unfoldable pub parse_into : IntType → Str → Bool → Result Problem ℤ
unfolding int_of_parsed
parse_into t s null = if null then err null_into_integer else int_of_parsed t (parse_int s)

-- parseNullInt
unfoldable pub parse_null_int : IntType → Str → Bool → Assigned (Option ℤ)
unfolding parse_into
parse_null_int t s null =
    if null
    then record { value = none; error = none }
    else store_result some none (parse_into t s false)

-- What a caller's variable holds: `pointer_to` one that may be nil.
pub data Variable : Type 0 where
  an_int : IntType → ℤ → Variable
  an_int_pointer : IntType → Option ℤ → Variable
  a_text : Str → Variable
  a_text_pointer : Option Str → Variable
  a_byte_slice : Option (List ℕ) → Variable

abbrev pub assigned : {A : Type 0} → (A → Variable) → Assigned A → Assigned Variable
assigned f a = record { value = f a.value; error = a.error }

abbrev pub without_error : Variable → Assigned Variable
without_error v = record { value = v; error = none }

-- assignFallback for a byte slice and the integer of a cell: NULL clears it, an integer does not suit.
unfoldable pub slice_fallback : Option (List ℕ) → ℕ → Assigned Variable
slice_fallback old raw =
    if raw == 0
    then without_error (a_byte_slice none)
    else record { value = a_byte_slice old; error = some cannot_scan }

-- The cases of assignInt, through a pointer that is not nil. A byte slice is left to assignFallback.
unfoldable pub assign_int : Variable → ℕ → ℕ → Assigned Variable
unfolding set_int set_null_int slice_fallback
assign_int (an_int t old) raw size =
    assigned (an_int t) (store_result (λ v. v) old (set_int t raw size))
assign_int (an_int_pointer t old) raw size = assigned (an_int_pointer t) (set_null_int t raw size)
assign_int (a_text old) raw size =
    without_error (a_text (if raw == 0 then [] else format_int (decode_int raw size)))
assign_int (a_text_pointer old) raw size =
    without_error
      (a_text_pointer (if raw == 0 then none else some (format_int (decode_int raw size))))
assign_int (a_byte_slice old) raw size = slice_fallback old raw

-- The cases of assignString.
unfoldable pub assign_string : Variable → Str → Bool → Assigned Variable
unfolding parse_into parse_null_int
assign_string (a_text old) s null = without_error (a_text s)
assign_string (a_text_pointer old) s null =
    without_error (a_text_pointer (if null then none else some s))
assign_string (a_byte_slice old) s null =
    without_error (a_byte_slice (if null then none else some s))
assign_string (an_int t old) s null =
    assigned (an_int t) (store_result (λ v. v) old (parse_into t s null))
assign_string (an_int_pointer t old) s null = assigned (an_int_pointer t) (parse_null_int t s null)
