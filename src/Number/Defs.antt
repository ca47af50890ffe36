-- ===== src/Number/Defs.antt =====
-- The values of type Number and the operators on them (the language's own, no file of the app).
-- `fin s k` is k / 2 ^ 1074, negated if `s`: every finite double has this form.
use ribs.Base.{
  ℕ, ◌+◌, ◌-◌, ◌*◌, ◌/◌, ◌%◌, ◌^◌, Bool, true, false, not, Option, none, some, ltb, ◌==◌,
  if◌then◌else◌,
}
use ribs.Number.Rounding.{unit, round_ratio}

pub data Number : Type 0 where
  nan : Number
  inf : Bool → Number
  fin : Bool → ℕ → Number

abbrev xor : Bool → Bool → Bool
xor true b = not b
xor false b = b

-- Above the largest double.
unfoldable pub huge : ℕ
huge = 2 ^ 2098

-- A rounded magnitude, or infinity.
unfoldable pub pack : Bool → ℕ → Number
pack s k = if ltb k huge then fin s k else inf s

-- A whole number as a double, rounded if it has more than 53 bits.
unfoldable pub of_ℕ : ℕ → Number
of_ℕ n = pack false (round_ratio (n * unit) 1)

abbrev pub zero_value : Number
zero_value = fin false 0

abbrev pub negate : Number → Number
negate nan = nan
negate (inf s) = inf (not s)
negate (fin s k) = fin (not s) k

abbrev pub abs : Number → Number
abs nan = nan
abs (inf s) = inf false
abs (fin s k) = fin false k

-- A sum of opposite signs; the exact zero is +0.
add_opposite : Bool → ℕ → ℕ → Number
add_opposite s a b =
    if a == b
    then fin false 0
    else if ltb b a
    then pack s (round_ratio (a - b) 1)
    else pack (not s) (round_ratio (b - a) 1)

unfoldable pub add : Number → Number → Number
unfolding add_opposite
add nan y = nan
add (inf s) nan = nan
add (inf s) (inf t) = if xor s t then nan else inf s
add (inf s) (fin t b) = inf s
add (fin s a) nan = nan
add (fin s a) (inf t) = inf t
add (fin s a) (fin t b) = if xor s t then add_opposite s a b else pack s (round_ratio (a + b) 1)

unfoldable pub sub : Number → Number → Number
sub x y = add x (negate y)

unfoldable pub mul : Number → Number → Number
mul nan y = nan
mul (inf s) nan = nan
mul (inf s) (inf t) = inf (xor s t)
mul (inf s) (fin t b) = if b == 0 then nan else inf (xor s t)
mul (fin s a) nan = nan
mul (fin s a) (inf t) = if a == 0 then nan else inf (xor s t)
mul (fin s a) (fin t b) = pack (xor s t) (round_ratio (a * b) unit)

unfoldable pub div : Number → Number → Number
div nan y = nan
div (inf s) nan = nan
div (inf s) (inf t) = nan
div (inf s) (fin t b) = inf (xor s t)
div (fin s a) nan = nan
div (fin s a) (inf t) = fin (xor s t) 0
div (fin s a) (fin t b) =
    if b == 0
    then (if a == 0 then nan else inf (xor s t))
    else pack (xor s t) (round_ratio (a * unit) b)

-- `x < y`; every comparison with NaN is false.
unfoldable pub lt : Number → Number → Bool
lt nan y = false
lt (inf s) nan = false
lt (inf true) (inf t) = not t
lt (inf false) (inf t) = false
lt (inf s) (fin t b) = s
lt (fin s a) nan = false
lt (fin s a) (inf t) = not t
lt (fin true a) (fin true b) = ltb b a
lt (fin true a) (fin false b) = ltb 0 (a + b)
lt (fin false a) (fin true b) = false
lt (fin false a) (fin false b) = ltb a b

-- `x === y`
unfoldable pub equal : Number → Number → Bool
equal nan y = false
equal (inf s) (inf t) = not (xor s t)
equal (inf s) y = false
equal (fin s a) (fin t b) = if xor s t then a + b == 0 else a == b
equal (fin s a) y = false

-- `x >= y`
unfoldable pub ge : Number → Number → Bool
unfolding lt equal
ge x y = if lt y x then true else equal x y

-- `x || 0`
unfoldable pub or_zero : Number → Number
or_zero nan = zero_value
or_zero (inf s) = inf s
or_zero (fin s k) = if k == 0 then zero_value else fin s k

-- A number as a condition: neither 0 nor NaN.
abbrev pub truthy_number : Number → Bool
truthy_number nan = false
truthy_number (inf s) = true
truthy_number (fin s k) = not (k == 0)

-- The number that a field stands for in arithmetic: `undefined` becomes NaN.
abbrev pub or_nan : Option Number → Number
or_nan none = nan
or_nan (some x) = x

-- `Math.floor`
unfoldable pub floor : Number → Number
floor nan = nan
floor (inf s) = inf s
floor (fin false k) = fin false (k / unit * unit)
floor (fin true k) = fin true ((k + unit - 1) / unit * unit)

-- `Math.round`: halves go up, also below zero.
unfoldable pub round : Number → Number
round nan = nan
round (inf s) = inf s
round (fin false k) = fin false ((2 * k + unit) / (2 * unit) * unit)
round (fin true k) = fin true ((2 * k + unit - 1) / (2 * unit) * unit)

-- `x % y` on finite values that are not negative.
unfoldable pub rem : Number → Number → Number
rem (fin s a) (fin t b) = if b == 0 then nan else fin s (a % b)
rem (fin s a) (inf t) = fin s a
rem x y = nan
