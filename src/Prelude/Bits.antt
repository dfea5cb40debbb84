-- ===== src/Prelude/Bits.antt =====
-- Laws of the bit operations at variables: one digit at a time, then whole fields.
use Prim.Native.Nat.{
  ℕ, zero, suc, ◌+◌, ◌-◌, ◌*◌, ◌/◌, ◌%◌, ◌^◌, ◌≤◌, ◌<◌, min, max, bit_and, bit_or, bit_xor, digits,
  bitwise, differ, bit_and-bitwise, bit_or-bitwise, bit_xor-bitwise,
}
use mathlib.Core.Path.{◌≡◌, refl, ap, ap₂}
use native.Mathlib.Nat.{pow-suc, div-add-mod, one-le-pow}
use native.Mathlib.Omega.{arith}

-- The digit recursion for an operation `op` on two digits. Its result does not depend on the fuel,
-- so a digit can be split off at any pair of numbers.
module _ (op : ℕ → ℕ → ℕ) (tail : ℕ → ℕ) where
  low_digit : ℕ → ℕ → ℕ → ℕ
  low_digit x y high = high * 2 + op (x % 2) (y % 2)

  any_fuel : (i j x y : ℕ) → x ≤ i → x ≤ j → digits tail op i x y ≡ digits tail op j x y
  unfolding low_digit
  any_fuel (suc i) (suc j) (suc x) y hi hj =
      let higher = any_fuel i j (suc x / 2) (y / 2) (omega arith) (omega arith) in
      ap (low_digit (suc x) y) higher
  any_fuel (suc i) (suc j) zero y hi hj = refl
  any_fuel (suc i) zero zero y hi hj = refl
  any_fuel zero (suc j) zero y hi hj = refl
  any_fuel zero zero zero y hi hj = refl
  any_fuel zero j (suc x) y hi hj = absurd (omega arith)
  any_fuel (suc i) zero (suc x) y hi hj = absurd (omega arith)

  split_digit :
      ((y : ℕ) → tail y ≡ tail (y / 2) * 2 + op 0 (y % 2))
      → (x y : ℕ) → bitwise tail op x y ≡ bitwise tail op (x / 2) (y / 2) * 2 + op (x % 2) (y % 2)
  unfolding low_digit
  split_digit last zero y = last y
  split_digit last (suc x) y =
      ap (low_digit (suc x) y)
        (any_fuel x (suc x / 2) (suc x / 2) (y / 2) (omega arith) (omega arith))

bit_and-split : (x y : ℕ) → bit_and x y ≡ bit_and (x / 2) (y / 2) * 2 + min (x % 2) (y % 2)
bit_and-split x y =
    let above = bit_and-bitwise (x / 2) (y / 2) in
    omega (arith, bit_and-bitwise x y, above, split_digit min (λ _. zero) (λ c. omega arith) x y)

bit_or-split : (x y : ℕ) → bit_or x y ≡ bit_or (x / 2) (y / 2) * 2 + max (x % 2) (y % 2)
bit_or-split x y =
    let above = bit_or-bitwise (x / 2) (y / 2) in
    omega (arith, bit_or-bitwise x y, above, split_digit max (λ c. c) (λ c. omega arith) x y)

bit_xor-split : (x y : ℕ) → bit_xor x y ≡ bit_xor (x / 2) (y / 2) * 2 + differ (x % 2) (y % 2)
bit_xor-split x y =
    let above = bit_xor-bitwise (x / 2) (y / 2) in
    omega (arith, bit_xor-bitwise x y, above, split_digit differ (λ c. c) (λ c. omega arith) x y)

-- An operation with nothing, for all numbers up to a bound.
or_nothing : (bound x : ℕ) → x ≤ bound → bit_or x 0 ≡ x
or_nothing bound zero h = refl
or_nothing (suc bound) (suc x) h =
    omega (arith, or_nothing bound (suc x / 2) (omega arith), bit_or-split (suc x) 0)
or_nothing zero (suc x) h = absurd (omega arith)

and_nothing : (bound x : ℕ) → x ≤ bound → bit_and x 0 ≡ 0
and_nothing bound zero h = refl
and_nothing (suc bound) (suc x) h =
    omega (arith, and_nothing bound (suc x / 2) (omega arith), bit_and-split (suc x) 0)
and_nothing zero (suc x) h = absurd (omega arith)

differ-zero : (c : ℕ) → differ c 0 ≡ c
differ-zero zero = refl
differ-zero (suc c) = refl

double_pow : (q k : ℕ) → q * 2 ^ suc k ≡ 2 * (q * 2 ^ k)
double_pow q k = omega (arith, ap (λ (t : ℕ). q * t) (pow-suc 2 k))

-- `|` of two numbers whose low `k` bits are those of the second alone.
pub bit_or-fields :
    (k q m r : ℕ) → r < 2 ^ k → bit_or (q * 2 ^ k) (m * 2 ^ k + r) ≡ bit_or q m * 2 ^ k + r
bit_or-fields zero q m r h = omega (
  arith,
  ap₂ bit_or (let e : q * 2 ^ 0 ≡ q = omega arith in e)
      (let e : m * 2 ^ 0 + r ≡ m = omega arith in e),
)
bit_or-fields (suc k) q m r h = ground (
  arith,
  bit_or-split (q * 2 ^ suc k) (m * 2 ^ suc k + r),
  double_pow q k,
  double_pow m k,
  double_pow (bit_or q m) k,
  pow-suc 2 k,
  bit_or-fields k q m (r / 2) (omega (arith, pow-suc 2 k)),
)

-- A mask over the bits from `k` on reads the number shifted down by `k`.
pub bit_and-shifted :
    (k q r m : ℕ) → r < 2 ^ k → bit_and (q * 2 ^ k + r) (m * 2 ^ k) ≡ bit_and q m * 2 ^ k
bit_and-shifted zero q r m h = omega (
  arith,
  ap₂ bit_and (let e : q * 2 ^ 0 + r ≡ q = omega arith in e)
      (let e : m * 2 ^ 0 ≡ m = omega arith in e),
)
bit_and-shifted (suc k) q r m h = ground (
  arith,
  bit_and-split (q * 2 ^ suc k + r) (m * 2 ^ suc k),
  double_pow q k,
  double_pow m k,
  double_pow (bit_and q m) k,
  pow-suc 2 k,
  bit_and-shifted k q (r / 2) m (omega (arith, pow-suc 2 k)),
)

-- A mask of the `k` lowest bits is the remainder by `2 ^ k`.
pub bit_and-mask : (k q r : ℕ) → r < 2 ^ k → bit_and (q * 2 ^ k + r) (2 ^ k - 1) ≡ r
bit_and-mask zero q r h = ground (arith, and_nothing (q * 2 ^ 0 + r) (q * 2 ^ 0 + r))
bit_and-mask (suc k) q r h = ground (
  arith,
  bit_and-split (q * 2 ^ suc k + r) (2 ^ suc k - 1),
  double_pow q k,
  pow-suc 2 k,
  bit_and-mask k q (r / 2) (omega (arith, pow-suc 2 k)),
)

-- `^` with the bit `k` flips it: on a number below twice that bit, it adds or takes away `2 ^ k`.
pub bit_xor-top :
    (k q r : ℕ) → q < 2 → r < 2 ^ k → bit_xor (q * 2 ^ k + r) (2 ^ k) ≡ (1 - q) * 2 ^ k + r
bit_xor-top zero zero zero hq h = refl
bit_xor-top zero (suc zero) zero hq h = refl
bit_xor-top zero (suc (suc q)) r hq h = absurd (omega arith)
bit_xor-top zero q (suc r) hq h = absurd (omega arith)
bit_xor-top (suc k) q r hq h =
    let half : (q * 2 ^ suc k + r) / 2 ≡ q * 2 ^ k + r / 2 = omega (arith, double_pow q k) in
    let low : (q * 2 ^ suc k + r) % 2 ≡ r % 2 = omega (arith, double_pow q k) in
    let mask : 2 ^ suc k / 2 ≡ 2 ^ k = omega (arith, pow-suc 2 k) in
    let even : 2 ^ suc k % 2 ≡ 0 = omega (arith, pow-suc 2 k) in
    let rest = bit_xor-top k q (r / 2) hq (omega (arith, pow-suc 2 k)) in
    rw (bit_xor-split, half, mask, low, even, rest, differ-zero)
      (omega (arith, double_pow (1 - q) k))

-- `t & 2 ^ k` keeps one bit.
pub bit_and-bit : (k t : ℕ) → bit_and t (2 ^ k) ≡ t / 2 ^ k % 2 * 2 ^ k
bit_and-bit k t = ground (
  arith,
  div-add-mod t (2 ^ k),
  one-le-pow k 2,
  bit_and-shifted k (t / 2 ^ k) (t % 2 ^ k) 1 (omega (arith, one-le-pow k 2)),
  bit_and-mask 1 (t / 2 ^ k / 2) (t / 2 ^ k % 2),
)
