-- ===== src/Number/Percent.antt =====
-- The percentage that a whole part is of a whole number: `part / total * 100`.
use native.Mathlib.Nat.{mul-le-mul_right, mul-pos}
use ribs.Base.{ℕ, ◌*◌, ◌^◌, ◌≤◌, ◌<◌, ◌≡◌, refl, false, arith, ==_ne, lt→ltb, not-leb}
use ribs.Number.Rounding.{unit, round_ratio, round_ratio-le}
use ribs.Number.Defs.{fin, pack, huge, div, mul, of_ℕ}
use ribs.Number.Exact.{whole, unit-pos, of_ℕ-whole}
use ribs.Number.Print.{to_fixed, point_text, scaled}

pub ratio-le_whole : (n m d : ℕ) → m ≤ 100 → 0 < d → n ≤ m * unit * d → round_ratio n d ≤ m * unit
unfolding unit
ratio-le_whole n m d hm hd h = round_ratio-le n m 1074 d (omega arith) hd h

pack-small : (k m : ℕ) → m ≤ 100 → k ≤ m * unit → pack false k ≡ fin false k
unfolding pack huge unit
pack-small k m hm h =
    let small : k < huge =
      (let b : m * unit ≤ 100 * unit = mul-le-mul_right unit hm in omega arith) in
    rw (lt→ltb k huge small)

quotient-le_one : (p t : ℕ) → 0 < t → p ≤ t → round_ratio (p * unit * unit) (t * unit) ≤ 1 * unit
quotient-le_one p t pos h =
    let same : p * unit ≤ t * unit = mul-le-mul_right unit h in
    let scaled : p * unit * unit ≤ t * unit * unit = mul-le-mul_right unit same in
    ratio-le_whole (p * unit * unit) 1 (t * unit) (omega arith) (mul-pos pos unit-pos) (omega arith)

product-le : (v : ℕ) → v ≤ 1 * unit → round_ratio (v * (100 * unit)) unit ≤ 100 * unit
product-le v h =
    let scaled : v * (100 * unit) ≤ 1 * unit * (100 * unit) = mul-le-mul_right (100 * unit) h in
    ratio-le_whole (v * (100 * unit)) 100 unit (omega arith) unit-pos (omega arith)

-- Between 0 and 100.
pub percent-le :
    (p t : ℕ)
    → 0 < t
    → p ≤ t
    → (w : ℕ) × (w ≤ 100 * unit) × (mul (div (whole p) (whole t)) (of_ℕ 100) ≡ fin false w)
unfolding div mul
percent-le p t pos h =
    let bottom : 0 < t * unit = mul-pos pos unit-pos in
    let v = quotient-le_one p t pos h in
    let w = product-le (round_ratio (p * unit * unit) (t * unit)) v in
    (
      _,
      w,
      rw
          (
            of_ℕ-whole 100 (omega arith),
            ==_ne (t * unit) 0 (omega arith),
            pack-small (round_ratio (p * unit * unit) (t * unit)) 1 (omega arith) v,
            pack-small _ 100 (omega arith) w,
          )
          refl,
    )

scaled-le : (w : ℕ) → w ≤ 100 * unit → scaled 2 w ≤ 10000
unfolding scaled unit
scaled-le w h = omega arith

-- With two decimals it is shown in hundredths from 0 to 100.
pub to_fixed-percent :
    (w : ℕ) → w ≤ 100 * unit → (q : ℕ) × (q ≤ 10000) × (to_fixed 2 (fin false w) ≡ point_text 2 q)
unfolding to_fixed
to_fixed-percent w h =
    let below : w < 10 ^ 21 * unit = (let u = unit-pos in omega arith) in
    (scaled 2 w, scaled-le w h, rw (not-leb (10 ^ 21 * unit) w below))
