-- ===== src/Convert.antt =====
-- msidb/convert.go: the Go values that a caller passes, and the values that a column stores.
pub mod Range
pub mod Assign
pub mod IntRange
pub mod Decimal
pub mod Scanned
pub mod Store
use go_msi.Prelude.{
  ℕ, zero, suc, ◌+◌, ◌-◌, ◌*◌, ◌/◌, ◌%◌, ◌^◌, ◌==◌, ◌||◌, ltb, leb, if◌then◌else◌, Bool, true,
  false, List, [], ◌∷◌,
}
use go_msi.Prelude.Int.{ℤ, pos, negsuc}
use go_msi.Prelude.Text.{Str}
use go_msi.Errors.{
  Problem, Result, ok, err, valuer_failed, value_out_of_range, expected_integer, expected_string,
  expected_reader,
}

-- A value of Go's `any`. The ten integer types are one, since the code treats them alike; `named` is
-- a named type over a string, an integer or a byte slice; a reader is known by a number, and so is a
-- value of any other type. `valuer` is a driver.Valuer with what its Value returns, `failing` one
-- that returns an error, and `nil_valuer` a nil pointer to a type that is a Valuer itself.
pub data Any : Type 0 where
  nil nil_slice nil_pointer nil_interface nil_valuer failing : Any
  text : Str → Any
  number : ℤ → Any
  byte_slice : List ℕ → Any
  named : Any → Any
  pointer : Any → Any
  interface_of : Any → Any
  valuer : Any → Any
  reader : ℕ → Any
  other : ℕ → Any

-- normalize behind its first test: `v` with what the loop over pointers has reached.
unfoldable pub reduce : Any → Any → Result Problem Any
reduce v nil = ok nil
reduce v nil_slice = ok nil
reduce v nil_pointer = ok nil
reduce v nil_interface = ok nil
reduce v nil_valuer = ok nil
reduce v failing = ok v
reduce v (text s) = ok (text s)
reduce v (number n) = ok (number n)
reduce v (byte_slice b) = ok (byte_slice b)
reduce v (named x) = reduce v x
reduce v (pointer (valuer x)) = reduce x x
reduce v (pointer failing) = err valuer_failed
reduce v (pointer x) = reduce v x
reduce v (interface_of (valuer x)) = reduce x x
reduce v (interface_of failing) = err valuer_failed
reduce v (interface_of x) = reduce x x
reduce v (valuer x) = ok v
reduce v (reader r) = ok v
reduce v (other x) = ok v

unfoldable pub normalize : Any → Result Problem Any
unfolding reduce
normalize (valuer x) = reduce x x
normalize failing = err valuer_failed
normalize v = reduce v v

-- The part of inRange behind its test on the sign: `limit` is not negative.
unfoldable pub in_range : ℤ → ℕ → Result Problem ℤ
in_range (pos n) limit = if ltb limit n then err value_out_of_range else ok (pos n)
in_range (negsuc n) limit = if ltb limit (suc n) then err value_out_of_range else ok (negsuc n)

-- What strconv.ParseInt answers at base 10 and 64 bits.
pub data Parsed : Type 0 where
  parsed : ℤ → Parsed
  bad_syntax out_of_range : Parsed

pub data ParsedUint : Type 0 where
  parsed_uint : ℕ → ParsedUint
  bad_digit overflows : ParsedUint

-- The loop of strconv.ParseUint: an overflow ends it, before the digits that follow.
unfoldable pub parse_uint : ℕ → Str → ParsedUint
parse_uint n [] = parsed_uint n
parse_uint n (c ∷ s) =
    let rest = parse_uint (n * 10 + (c - b'0')) s in
    if ltb c b'0' || ltb b'9' c
    then bad_digit
    else if leb (2 ^ 64) (n * 10 + (c - b'0'))
    then overflows
    else rest

unfoldable pub signed_number : Bool → ParsedUint → Parsed
signed_number neg bad_digit = bad_syntax
signed_number neg overflows = out_of_range
signed_number false (parsed_uint n) = if leb (2 ^ 63) n then out_of_range else parsed (pos n)
signed_number true (parsed_uint zero) = parsed (pos 0)
signed_number true (parsed_uint (suc n)) =
    if leb (2 ^ 63) n then out_of_range else parsed (negsuc n)

-- ParseUint refuses an empty text.
unfoldable pub parse_digits_of : Bool → Str → Parsed
unfolding signed_number parse_uint
parse_digits_of neg [] = bad_syntax
parse_digits_of neg (c ∷ s) = signed_number neg (parse_uint 0 (c ∷ s))

unfoldable pub parse_int : Str → Parsed
unfolding parse_digits_of
parse_int [] = bad_syntax
parse_int (c ∷ s) =
    if c == b'-'
    then parse_digits_of true s
    else if c == b'+'
    then parse_digits_of false s
    else parse_digits_of false (c ∷ s)

unfoldable pub int_of_text : ℕ → Parsed → Result Problem ℤ
unfolding in_range
int_of_text limit (parsed n) = in_range n limit
int_of_text limit bad_syntax = err expected_integer
int_of_text limit out_of_range = err value_out_of_range

unfoldable pub int_value : Any → ℕ → Result Problem ℤ
unfolding in_range int_of_text parse_int
int_value (number n) limit = in_range n limit
int_value (text s) limit = int_of_text limit (parse_int s)
int_value v limit = err expected_integer

-- The decimal digits of a number below ten to the number of rounds, in front of `out`.
unfoldable pub decimal : ℕ → ℕ → Str → Str
decimal zero n out = out
decimal (suc rounds) n out =
    let rest = decimal rounds (n / 10) ((b'0' + n % 10) ∷ out) in
    if ltb n 10 then (b'0' + n) ∷ out else rest

-- strconv.Itoa, FormatInt and FormatUint at base 10: 64 bits have twenty digits at most.
unfoldable pub format_int : ℤ → Str
unfolding decimal
format_int (pos n) = decimal 20 n []
format_int (negsuc n) = b'-' ∷ decimal 20 (suc n) []

unfoldable pub string_value : Any → Result Problem Str
unfolding format_int
string_value (text s) = ok s
string_value (number n) = ok (format_int n)
string_value v = err expected_string

-- What is read of a payload: a reader of the caller's, or the bytes of a value.
pub data Payload : Type 0 where
  from_reader : ℕ → Payload
  from_bytes : List ℕ → Payload

unfoldable pub binary_reader : Any → Result Problem Payload
binary_reader (reader r) = ok (from_reader r)
binary_reader (byte_slice b) = ok (from_bytes b)
binary_reader (text s) = ok (from_bytes s)
binary_reader v = err expected_reader
