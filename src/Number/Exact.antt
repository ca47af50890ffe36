-- ===== src/Number/Exact.antt =====
-- Whole numbers below 2 ^ 53 are doubles, and arithmetic on them is exact while it stays there.
use native.Mathlib.Decide.{dec_lt, ℕ_discrete}
use native.Mathlib.Nat.{
  mul-lt-mul_of_pos_right, mul-pos, lt_of_lt_of_le, lt_of_le_of_lt, pow-le-pow_right,
  mul-le-mul_right, mul-le-mul_left, le_of_mul-le-mul_right, div-eq_of_lt-le, div-mul-le_self,
  lt-mul-div-succ, div-add-mod, mod-lt, add-mul-mod_self_left, mod-eq_of_lt,
}
use ribs.Base.{
  ℕ, ◌+◌, ◌-◌, ◌*◌, ◌/◌, ◌%◌, ◌^◌, ◌≤◌, ◌<◌, ◌≡◌, Bool, false, true, ap, ◌∙◌, arith, leb, ==_iff,
  ==_ne, ltb, lt→ltb, not-ltb, ◌==◌,
}
use ribs.Number.Rounding.{
  unit, significands, round_ratio, round_ratio-exact_of_eq, round_ratio-le, le-round_ratio, pow-add,
  pow-pos,
}
use ribs.Number.Defs.{Number, fin, pack, huge, of_ℕ, add, sub, mul, div, lt, equal, ge, floor, rem}

-- A whole number as a double.
abbrev pub whole : ℕ → Number
whole n = fin false (n * unit)

pub unit-pos : 0 < unit
unfolding unit
unit-pos = omega arith

pub ltb-unit : (a b : ℕ) → ltb (a * unit) (b * unit) ≡ ltb a b
ltb-unit a b = elim (dec_lt a b) [
  | yes h ↦ rw (lt→ltb a b h) (lt→ltb _ _ (mul-lt-mul_of_pos_right h unit-pos))
  | no h ↦ rw (not-ltb a b (omega arith)) (not-ltb _ _ (mul-le-mul_right unit (omega arith)))
]

pub ==-unit : (a b : ℕ) → (a * unit == b * unit) ≡ (a == b)
==-unit a b = elim (ℕ_discrete a b) [
  | yes e ↦ rw ((==_iff a b).1 e) ((==_iff (a * unit) (b * unit)).1 (ap (λ (k : ℕ). k * unit) e))
  | no ne ↦ rw (==_ne a b ne) (==_ne (a * unit) (b * unit) (λ e. ne (mul_cancel a b e)))
]
  where
    mul_cancel : (a b : ℕ) → a * unit ≡ b * unit → a ≡ b
    mul_cancel a b e =
        let le : a ≤ b = le_of_mul-le-mul_right {k = unit} (omega arith) unit-pos in
        let ge : b ≤ a = le_of_mul-le-mul_right {k = unit} (omega arith) unit-pos in omega arith

pow-le-unit : (j : ℕ) → j ≤ 1074 → 2 ^ j ≤ unit
unfolding unit
pow-le-unit j h = pow-le-pow_right (omega arith) h

le-round-unit :
    (n m d : ℕ) → m < significands → 0 < d → m * unit * d ≤ n → m * unit ≤ round_ratio n d
unfolding unit
le-round-unit n m d hm hd h = le-round_ratio n m 1074 d hm hd h

pub unit-eq-pow : (t : ℕ) → t ≤ 1074 → unit ≡ 2 ^ t * 2 ^ (1074 - t)
unfolding unit
unit-eq-pow t h =
    let e : 1074 ≡ t + (1074 - t) = omega arith in ap (λ (k : ℕ). 2 ^ k) e ∙ pow-add 2 t (1074 - t)

significands-le-huge : significands * unit ≤ huge
unfolding huge unit
significands-le-huge = omega arith

pack-small : (s : Bool) (k : ℕ) → k < significands * unit → pack s k ≡ fin s k
unfolding pack
pack-small s k h = rw (lt→ltb k huge (lt_of_lt_of_le h significands-le-huge))

round-whole : (n d m : ℕ) → m < significands → 0 < d → n ≡ m * unit * d → round_ratio n d ≡ m * unit
unfolding unit
round-whole n d m hm hd e = round_ratio-exact_of_eq n m 1074 d hm hd e

-- A ratio that is a whole number of 53 bits is that number, whatever the sign.
pack-whole :
    (s : Bool) (n d m : ℕ)
    → m < significands
    → 0 < d
    → n ≡ m * unit * d
    → pack s (round_ratio n d) ≡ fin s (m * unit)
pack-whole s n d m hm hd e =
    rw (round-whole n d m hm hd e) (pack-small s _ (mul-lt-mul_of_pos_right hm unit-pos))

pub of_ℕ-whole : (n : ℕ) → n < significands → of_ℕ n ≡ whole n
unfolding of_ℕ
of_ℕ-whole n h = pack-whole false (n * unit) 1 n h (omega arith) (omega arith)

pub add-whole : (a b : ℕ) → a + b < significands → add (whole a) (whole b) ≡ whole (a + b)
unfolding add
add-whole a b h = pack-whole false (a * unit + b * unit) 1 (a + b) h (omega arith) (omega arith)

pub mul-whole : (a b : ℕ) → a * b < significands → mul (whole a) (whole b) ≡ whole (a * b)
unfolding mul
mul-whole a b h = pack-whole false (a * unit * (b * unit)) unit (a * b) h unit-pos (omega arith)

-- The difference of two whole numbers, whichever is the larger.
pub sub-whole : (a b : ℕ) → a < significands → b ≤ a → sub (whole a) (whole b) ≡ whole (a - b)
unfolding sub add
sub-whole a b h le = elim (ℕ_discrete a b) [
  | yes e ↦
      let zero : a - b ≡ 0 = omega arith in
      rw (==-unit a b, (==_iff a b).1 e, zero) (ap (fin false) (omega arith))
  | no ne ↦
      let parts : (a - b) * unit + b * unit ≡ a * unit =
        let e : a - b + b ≡ a = omega arith in omega (arith, ap (λ (k : ℕ). k * unit) e) in
      rw (==-unit a b, ==_ne a b ne, ltb-unit b a, lt→ltb b a (omega arith))
        (pack-whole false (a * unit - b * unit) 1 (a - b) (omega arith) (omega arith) (omega arith))
]

-- A difference below zero.
pub sub-whole_back :
    (a b : ℕ) → b < significands → a < b → sub (whole a) (whole b) ≡ fin true ((b - a) * unit)
unfolding sub add
sub-whole_back a b h lt =
    let parts : (b - a) * unit + a * unit ≡ b * unit =
      let e : b - a + a ≡ b = omega arith in omega (arith, ap (λ (k : ℕ). k * unit) e) in
    rw (==-unit a b, ==_ne a b (omega arith), ltb-unit b a, not-ltb b a (omega arith))
      (pack-whole true (b * unit - a * unit) 1 (b - a) (omega arith) (omega arith) (omega arith))

pub lt-whole : (a b : ℕ) → lt (whole a) (whole b) ≡ ltb a b
unfolding lt
lt-whole a b = ltb-unit a b

pub equal-whole : (a b : ℕ) → equal (whole a) (whole b) ≡ (a == b)
unfolding equal
equal-whole a b = ==-unit a b

pub ge-whole : (a b : ℕ) → ge (whole a) (whole b) ≡ leb b a
unfolding ge
ge-whole a b = ground (arith, ltb-unit a b, ==-unit a b)

module _ (a b t : ℕ) (hb : 0 < b) (ht : b ≤ 2 ^ t) (hu : t ≤ 1074)
    (hq : (a / b + 1) * 2 ^ t < significands) where
  quotient : ℕ
  quotient = round_ratio (a * unit * unit) (b * unit)

  le-quotient : a / b * unit ≤ quotient
  unfolding quotient
  le-quotient =
      let up : (a / b + 1) * 1 ≤ (a / b + 1) * 2 ^ t = mul-le-mul_left (a / b + 1) (pow-pos t) in
      let small : a / b < significands = omega arith in
      let scaled = mul-le-mul_right (unit * unit) (div-mul-le_self a b) in
      le-round-unit (a * unit * unit) (a / b) (b * unit) small (mul-pos hb unit-pos) (omega arith)

  quotient-lt : quotient < (a / b + 1) * unit
  unfolding quotient
  quotient-lt =
      let q : ℕ = a / b + 1 in
      let top : ℕ = q * 2 ^ t - 1 in
      let low : ℕ = 2 ^ (1074 - t) in
      let u : unit ≡ 2 ^ t * low = unit-eq-pow t hu in
      let pos : 0 < q * 2 ^ t = mul-pos {m = q} (omega arith) (pow-pos t) in
      let next : a + 1 ≤ b * q = (let h : a < b * q = lt-mul-div-succ a hb in omega arith) in
      let above : (a + 1) * 2 ^ t ≤ b * q * 2 ^ t = mul-le-mul_right (2 ^ t) next in
      let top' : (top + 1) * b ≡ q * 2 ^ t * b =
        let e : top + 1 ≡ q * 2 ^ t = omega arith in ap (λ (k : ℕ). k * b) e in
      let core : a * 2 ^ t ≤ top * b = omega arith in
      let scaled : a * 2 ^ t * (low * unit) ≤ top * b * (low * unit) =
        mul-le-mul_right (low * unit) core in
      let n_eq : a * unit * unit ≡ a * 2 ^ t * (low * unit) =
        ap (λ (k : ℕ). a * k * unit) u ∙ (omega arith) in
      let bound : a * unit * unit ≤ top * low * (b * unit) = omega arith in
      let rounded =
        round_ratio-le (a * unit * unit) top (1074 - t) (b * unit) (omega arith)
          (mul-pos hb unit-pos) bound in
      let whole_up : q * unit ≡ q * 2 ^ t * low = ap (λ (k : ℕ). q * k) u ∙ (omega arith) in
      let step : (top + 1) * low ≡ q * 2 ^ t * low =
        let e : top + 1 ≡ q * 2 ^ t = omega arith in ap (λ (k : ℕ). k * low) e in
      let low_pos : 0 < low = pow-pos (1074 - t) in omega arith

-- `Math.floor(a / b)` on whole numbers; `2 ^ t` bounds the divisor, and the quotient leaves it room.
pub floor-div-whole :
    (a b t : ℕ)
    → 0 < b
    → b ≤ 2 ^ t
    → t ≤ 1074
    → (a / b + 1) * 2 ^ t < significands
    → floor (div (whole a) (whole b)) ≡ whole (a / b)
unfolding floor div quotient
floor-div-whole a b t hb ht hu hq =
    let high = quotient-lt a b t hb ht hu hq in
    let exact : quotient a b t hb ht hu hq / unit ≡ a / b =
      div-eq_of_lt-le unit (le-quotient a b t hb ht hu hq) high in
    let up : (a / b + 1) * 1 ≤ (a / b + 1) * 2 ^ t = mul-le-mul_left (a / b + 1) (pow-pos t) in
    let room : (a / b + 1) * unit ≤ significands * unit = mul-le-mul_right unit (omega arith) in
    let b_pos : 0 < b * unit = mul-pos hb unit-pos in
    rw (
      ==_ne (b * unit) 0 (omega arith),
      pack-small false (quotient a b t hb ht hu hq) (lt_of_lt_of_le high room),
      exact,
    )

-- A quotient of at most 53 bits is exact.
pub div-scaled :
    (n j b : ℕ)
    → n < significands
    → j ≤ 1074
    → 0 < b
    → div (fin false (n * 2 ^ j * b)) (whole b) ≡ fin false (n * 2 ^ j)
unfolding div
div-scaled n j b hn hj hb =
    let d_pos : 0 < b * unit = mul-pos hb unit-pos in
    let exact : round_ratio (n * 2 ^ j * b * unit) (b * unit) ≡ n * 2 ^ j =
      round_ratio-exact_of_eq (n * 2 ^ j * b * unit) n j (b * unit) hn d_pos (omega arith) in
    let below : n * 2 ^ j < significands * unit =
      lt_of_le_of_lt (mul-le-mul_left n (pow-le-unit j hj)) (mul-lt-mul_of_pos_right hn unit-pos) in
    rw (==_ne (b * unit) 0 (omega arith), exact, pack-small false (n * 2 ^ j) below)

pub rem-whole : (a b : ℕ) → 0 < b → rem (whole a) (whole b) ≡ whole (a % b)
unfolding rem
rem-whole a b h =
    let b_pos : 0 < b * unit = mul-pos h unit-pos in
    let parts : a * unit ≡ a % b * unit + b * unit * (a / b) =
      omega (arith, ap (λ (k : ℕ). k * unit) (div-add-mod a b)) in
    let low : a % b * unit < b * unit = mul-lt-mul_of_pos_right (mod-lt a h) unit-pos in
    let exact : a * unit % (b * unit) ≡ a % b * unit =
      ap (λ (k : ℕ). k % (b * unit)) parts
      ∙ (add-mul-mod_self_left (a % b * unit) (b * unit) (a / b) ∙ mod-eq_of_lt low) in
    rw (==_ne (b * unit) 0 (omega arith), exact)
