-- ===== src/Fmt/Averages.antt =====
-- `calcEMA` of helpers/fmt.js with the factor 1 / 10 of the tiles: a bound that it keeps.
use native.Mathlib.Nat.{mul-le-mul_left, mul-le-mul_right}
use ribs.Base.{ℕ, ◌*◌, ◌≤◌, ◌<◌, ◌≡◌, ◌^◌, refl, Bool, false, arith}
use ribs.Number.Rounding.{unit, significands}
use ribs.Number.Defs.{Number, nan, inf, fin, of_ℕ, add, sub, mul}
use ribs.Number.Print.{running}
use ribs.Number.Bounds.{IsWithin, add-IsWithin_each, mul-IsWithin}
use ribs.Fmt.Units.{calc_ema}
use ribs.Status.Meter.{smoothing_factor}

-- The doubles 1 / 10 and 1 - 1 / 10, in units of the smallest.
abbrev tenth : ℕ
tenth = 3602879701896397 * 2 ^ 1019

abbrev rest : ℕ
rest = 8106479329266893 * 2 ^ 1021

smoothing_factor-eq : smoothing_factor ≡ fin false tenth
unfolding running
smoothing_factor-eq = refl

sub-eq : sub (of_ℕ 1) (fin false tenth) ≡ fin false rest
unfolding running
sub-eq = refl

tenth-le : tenth * 8 ≤ unit
unfolding unit
tenth-le = omega arith

rest-le : rest * 16 ≤ 15 * unit
unfolding unit
rest-le = omega arith

rest-inf : mul (fin false rest) (inf false) ≡ inf false
unfolding mul
rest-inf = refl

add-inf : (m : ℕ) (x : Number) → IsWithin m x → add x (inf false) ≡ inf false
unfolding add
add-inf m nan h = elim h [ ]
add-inf m (inf s) h = elim h [ ]
add-inf m (fin s a) h = refl

module _ (n : ℕ) (hn : 16 * n < significands) where
  new-IsWithin :
      (s : Bool) (a : ℕ) → a ≤ 8 * n * unit → IsWithin n (mul (fin false tenth) (fin s a))
  new-IsWithin s a h =
      let product : tenth * a ≤ tenth * (8 * n * unit) = mul-le-mul_left tenth h in
      let scaled : tenth * 8 * (n * unit) ≤ unit * (n * unit) =
        mul-le-mul_right (n * unit) tenth-le in
      mul-IsWithin n (omega arith) tenth a false s (grind arith)

  old-IsWithin :
      (s : Bool) (b : ℕ) → b ≤ 16 * n * unit → IsWithin (15 * n) (mul (fin false rest) (fin s b))
  old-IsWithin s b h =
      let product : rest * b ≤ rest * (16 * n * unit) = mul-le-mul_left rest h in
      let scaled : rest * 16 * (n * unit) ≤ 15 * unit * (n * unit) =
        mul-le-mul_right (n * unit) rest-le in
      mul-IsWithin (15 * n) (omega arith) rest b false s (grind arith)

  sum-IsWithin : (x y : Number) → IsWithin n x → IsWithin (15 * n) y → IsWithin (16 * n) (add x y)
  sum-IsWithin nan y hx hy = elim hx [ ]
  sum-IsWithin (inf s) y hx hy = elim hx [ ]
  sum-IsWithin (fin s a) nan hx hy = elim hy [ ]
  sum-IsWithin (fin s a) (inf t) hx hy = elim hy [ ]
  sum-IsWithin (fin s a) (fin t b) hx hy = add-IsWithin_each (16 * n) hn a b s t (omega arith)

  -- An average within 16 n stays there under new values within 8 n.
  pub calc_ema-IsWithin :
      (now before : Number)
      → IsWithin (8 * n) now
      → IsWithin (16 * n) before
      → IsWithin (16 * n) (calc_ema now before smoothing_factor)
  unfolding calc_ema
  calc_ema-IsWithin nan before h h' = elim h [ ]
  calc_ema-IsWithin (inf s) before h h' = elim h [ ]
  calc_ema-IsWithin (fin s a) nan h h' = elim h' [ ]
  calc_ema-IsWithin (fin s a) (inf t) h h' = elim h' [ ]
  calc_ema-IsWithin (fin s a) (fin t b) h h' =
      rw (smoothing_factor-eq, sub-eq) (sum-IsWithin _ _ (new-IsWithin s a h) (old-IsWithin t b h'))

-- An infinite average stays infinite under every finite value.
pub calc_ema-inf :
    (n : ℕ) (x : Number)
    → 16 * n < significands
    → IsWithin (8 * n) x
    → calc_ema x (inf false) smoothing_factor ≡ inf false
unfolding calc_ema
calc_ema-inf n nan hn h = elim h [ ]
calc_ema-inf n (inf s) hn h = elim h [ ]
calc_ema-inf n (fin s a) hn h =
    rw (smoothing_factor-eq, sub-eq, rest-inf, add-inf n _ (new-IsWithin n hn s a h))
