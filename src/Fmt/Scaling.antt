-- ===== src/Fmt/Scaling.antt =====
-- The loop that divides by 1024, on whole numbers: every round is exact.
use mathlib.Core.Path.{subst, ap₂}
use native.Mathlib.Nat.{
  mul-lt-mul_of_pos_right, mul-le-mul_left, one-le-pow, pow-suc, mul-div_cancel, mul-div-mul_right,
  mul-le-mul_right, le_trans,
}
use ribs.Base.{
  ℕ, zero, suc, ◌+◌, ◌-◌, ◌*◌, ◌/◌, ◌^◌, ◌≤◌, ◌<◌, ◌≡◌, refl, sym, ap, ◌∙◌, true, false, some,
  arith, leb, le→leb, not-leb, lt→ltb, ==_ne, ==_iff, ◌==◌,
}
use ribs.Number.Rounding.{unit, significands, round_ratio, pow-pos, pow-add}
use ribs.Number.Defs.{fin, ge, or_zero}
use ribs.Number.Exact.{whole, of_ℕ-whole, unit-eq-pow, unit-pos, div-scaled}
use ribs.Number.Percent.{ratio-le_whole}
use ribs.Number.Print.{to_fixed, parse_int, scaled, point_text}
use ribs.Fmt.Units.{scale_loop}

ge-1024 : (k : ℕ) → ge (fin false k) (whole 1024) ≡ leb (1024 * unit) k
unfolding ge
ge-1024 k = ground arith

pow-1024 : (k : ℕ) → 1024 ^ k ≡ 2 ^ (10 * k)
pow-1024 zero = refl
pow-1024 (suc k) =
    let e : 10 * suc k ≡ 10 * k + 10 = omega arith in
    rw (e, pow-add 2 (10 * k) 10, pow-suc 1024 k, pow-1024 k)

-- Each round of the loop takes one factor 1024 out of the magnitude, exactly.
scale_bytes :
    (k f n j l : ℕ)
    → n < significands
    → k < f
    → 10 * k + j ≤ 1074
    → (0 < k → unit ≤ n * 2 ^ j)
    → n * 2 ^ j < 1024 * unit
    → scale_loop f (whole 1024) (fin false (n * 2 ^ j * 1024 ^ k)) l
      ≡ some (fin false (n * 2 ^ j), l + k)
unfolding scale_loop
scale_bytes k zero n j l hn hf hb hk hj = absurd (omega arith)
scale_bytes zero (suc f) n j l hn hf hb hk hj =
    let e : n * 2 ^ j * 1024 ^ 0 ≡ n * 2 ^ j = omega arith in
    let e' : l + 0 ≡ l = omega arith in
    rw (e, e', ge-1024 (n * 2 ^ j), not-leb (1024 * unit) (n * 2 ^ j) hj)
scale_bytes (suc k) (suc f) n j l hn hf hb hk hj =
    let join : n * 2 ^ (j + 10 * k) ≡ n * 2 ^ j * 1024 ^ k =
      rw (pow-add 2 j (10 * k), pow-1024 k) (omega arith) in
    let split : n * 2 ^ j * 1024 ^ suc k ≡ n * 2 ^ (j + 10 * k) * 1024 =
      rw (join, pow-suc 1024 k) (omega arith) in
    let least : n * 2 ^ j * 1 ≤ n * 2 ^ j * 1024 ^ k =
      mul-le-mul_left (n * 2 ^ j) (one-le-pow k 1024 (omega arith)) in
    let low : unit ≤ n * 2 ^ j = hk (omega arith) in
    let big : 1024 * unit ≤ n * 2 ^ (j + 10 * k) * 1024 = rw join (omega arith) in
    let count : l + suc k ≡ l + 1 + k = omega arith in
    rw
      (
        split,
        ge-1024 (n * 2 ^ (j + 10 * k) * 1024),
        le→leb (1024 * unit) (n * 2 ^ (j + 10 * k) * 1024) big,
        div-scaled n (j + 10 * k) 1024 hn (omega arith) (omega arith),
        join,
        count,
      )
      (scale_bytes k f n j (l + 1) hn (omega arith) (omega arith) (λ _. hk (omega arith)) hj)

pub parse_int-whole : (n : ℕ) → n < significands → parse_int (whole n) ≡ whole n
unfolding parse_int
parse_int-whole zero h =
    let test : (0 * unit == 0) ≡ true = (==_iff (0 * unit) 0).1 (omega arith) in
    rw test (of_ℕ-whole 0 h)
parse_int-whole (suc m) h =
    let n = suc m in
    let low : round_ratio unit (10 ^ 6) ≤ n * unit =
      le_trans (ratio-le_whole unit 1 (10 ^ 6) (omega arith) (omega arith) (omega arith))
        (mul-le-mul_right unit (omega arith)) in
    let high : n * unit < 10 ^ 21 * unit = mul-lt-mul_of_pos_right (omega arith) unit-pos in
    rw (
      ==_ne (n * unit) 0 (let p = unit-pos in omega arith),
      le→leb (round_ratio unit (10 ^ 6)) (n * unit) low,
      lt→ltb (n * unit) (10 ^ 21 * unit) high,
      mul-div_cancel n unit-pos,
    )

pub or_zero-whole : (n : ℕ) → or_zero (whole n) ≡ whole n
unfolding or_zero
or_zero-whole zero = let e : 0 * unit ≡ 0 = omega arith in rw e
or_zero-whole (suc m) = rw (==_ne (suc m * unit) 0 (let p = unit-pos in omega arith))

-- In the unit 1024 ^ l the magnitude of 1 is 1024 ^ l steps of 2 ^ (1074 - 10 * l).
pub step : ℕ → ℕ
step l = 2 ^ (1074 - 10 * l)

unit-step : (l : ℕ) → l < 6 → unit ≡ 1024 ^ l * step l
unfolding step
unit-step l h = rw pow-1024 (unit-eq-pow (10 * l) (omega arith))

module _ (n l : ℕ) (hn : n < significands) (hl : l < 6) (low : 0 < l → 1024 ^ l ≤ n)
    (high : n < 1024 ^ suc l) where
  step-pos : 0 < step l
  unfolding step
  step-pos = pow-pos (1074 - 10 * l)

  step-lt : n * step l < 1024 * unit
  step-lt =
      let up : n < 1024 ^ l * 1024 = rw (← pow-suc 1024 l) high in
      let scaled : n * step l < 1024 ^ l * 1024 * step l = mul-lt-mul_of_pos_right up step-pos in
      rw (unit-step l hl) (omega arith)

  unit-le-step : 0 < l → unit ≤ n * step l
  unit-le-step pos = rw (unit-step l hl) (mul-le-mul_right (step l) (low pos))

  pub scale-whole : scale_loop 120 (whole 1024) (whole n) 0 ≡ some (fin false (n * step l), l)
  unfolding step
  scale-whole =
      let e : n * unit ≡ n * step l * 1024 ^ l =
        ap (λ (u : ℕ). n * u) (unit-step l hl) ∙ (omega arith) in
      let zero_add : l ≡ 0 + l = omega arith in
      rw e (
        subst
          (λ k.
            scale_loop 120 (whole 1024) (fin false (n * 2 ^ (1074 - 10 * l) * 1024 ^ l)) 0
            ≡ some (fin false (n * 2 ^ (1074 - 10 * l)), k))
          (sym zero_add)
          (scale_bytes l 120 n (1074 - 10 * l) 0 hn (omega arith) (omega arith) unit-le-step
            step-lt))

  pub to_fixed-step :
      (f : ℕ)
      → to_fixed f (fin false (n * step l))
        ≡ point_text f ((2 * (n * 10 ^ f) + 1024 ^ l) / (2 * 1024 ^ l))
  unfolding to_fixed scaled
  to_fixed-step f =
      let below : n * step l < 10 ^ 21 * unit = let h = step-lt in omega arith in
      let num : 2 * (n * step l * 10 ^ f) + unit ≡ (2 * (n * 10 ^ f) + 1024 ^ l) * step l =
        omega (arith, unit-step l hl) in
      let den : 2 * unit ≡ 2 * 1024 ^ l * step l = omega (arith, unit-step l hl) in
      rw (not-leb (10 ^ 21 * unit) (n * step l) below) (
        ap (point_text f) (
          ap₂ (λ (a b : ℕ). a / b) num den
          ∙ mul-div-mul_right (2 * (n * 10 ^ f) + 1024 ^ l) (2 * 1024 ^ l) step-pos))
