-- ===== src/Fmt/Stamps.antt =====
-- The parts of `formatTimestamp` of helpers/fmt.js on whole milliseconds.
use native.Mathlib.Nat.{mul-le-mul_left}
use ribs.Base.{
  ℕ, ◌+◌, ◌-◌, ◌*◌, ◌/◌, ◌^◌, ◌≤◌, ◌<◌, ◌≡◌, ap, ◌∙◌, arith, Text, lt→ltb, not-ltb, ◌==◌, inl, inr,
  Bool-cases,
}
use ribs.Number.Rounding.{significands}
use ribs.Number.Defs.{floor, div, mul}
use ribs.Number.Exact.{whole, of_ℕ-whole, mul-whole, sub-whole, equal-whole, floor-div-whole}
use ribs.Fmt.Scaling.{or_zero-whole}
use ribs.Fmt.Times.{shown, to_text-whole}
use ribs.Fmt.Dates.{days_in_month, part_if, time_parts}

-- The parts of a number of milliseconds, in months of `a_month` days.
pub record IsStretch (a_month total months days hours minutes : ℕ) : Type 0 where
  pub rest : ℕ
  pub sum :
      months * a_month * 86400000 + days * 86400000 + hours * 3600000 + minutes * 60000 + rest
      ≡ total
  pub days_lt : days < a_month
  pub hours_lt : hours < 24
  pub minutes_lt : minutes < 60
  pub rest_lt : rest < 60000

pub part_if-whole :
    (n : ℕ) (suffix : Text) → n < significands → part_if (whole n) suffix ≡ shown n suffix
part_if-whole n suffix h = elim (Bool-cases (n == 0)) [
  | inl e ↦
      rw (
        of_ℕ-whole 0 (omega arith),
        or_zero-whole n,
        equal-whole n 0,
        e,
        not-ltb 0 n (ground arith),
      )
  | inr e ↦ rw (
    of_ℕ-whole 0 (omega arith),
    or_zero-whole n,
    equal-whole n 0,
    e,
    lt→ltb 0 n (ground arith),
    to_text-whole n h,
  )
]

quotient :
    (a b t q : ℕ)
    → 0 < b
    → b ≤ 2 ^ t
    → t ≤ 32
    → (q + 1) * 2 ^ t < significands
    → a / b ≡ q
    → floor (div (whole a) (whole b)) ≡ whole q
quotient a b t q hb ht hu hq e = floor-div-whole a b t hb ht (omega arith) (rw e hq) ∙ ap whole e

pub days_in_month-range :
    (year month : ℕ) → (28 ≤ days_in_month year month) × (days_in_month year month ≤ 31)
days_in_month-range year month = ground arith

months-quotient :
    (a_month total m rest : ℕ)
    → 28 ≤ a_month
    → m * a_month * 86400000 + rest ≡ total
    → rest < a_month * 86400000
    → total / (a_month * 86400000) ≡ m
months-quotient a t m r low e h = grind arith

times_1000 :
    (n : ℕ)
    → n * 3600 * 1000 < significands
    → mul (mul (mul (whole n) (whole 60)) (whole 60)) (whole 1000) ≡ whole (n * 3600000)
times_1000 n h =
    let e : n * 60 * 60 * 1000 ≡ n * 3600000 = omega arith in
    rw (
      mul-whole n 60 (omega arith),
      mul-whole (n * 60) 60 (omega arith),
      mul-whole (n * 60 * 60) 1000 (omega arith),
      e,
    )

times_day :
    (n : ℕ)
    → n * 86400000 < significands
    → mul (mul (mul (mul (whole n) (whole 24)) (whole 60)) (whole 60)) (whole 1000)
      ≡ whole (n * 86400000)
times_day n h =
    let e : n * 24 * 3600000 ≡ n * 86400000 = omega arith in
    rw (mul-whole n 24 (omega arith), times_1000 (n * 24) (omega arith), e)

module _ (a t m d h k : ℕ) (low : 28 ≤ a) (high : a ≤ 31) (ht : t < 2 ^ 50)
    (s : IsStretch a t m d h k) where
  in_month : ℕ
  in_month = t - m * a * 86400000

  in_day : ℕ
  in_day = in_month - d * 86400000

  in_hour : ℕ
  in_hour = in_day - h * 3600000

  in_month-eq : in_month ≡ d * 86400000 + h * 3600000 + k * 60000 + s.rest
  unfolding in_month
  in_month-eq = omega (arith, s.sum)

  in_day-eq : in_day ≡ h * 3600000 + k * 60000 + s.rest
  unfolding in_day
  in_day-eq = omega (arith, in_month-eq)

  in_hour-eq : in_hour ≡ k * 60000 + s.rest
  unfolding in_hour
  in_hour-eq = omega (arith, in_day-eq)

  pub months_lt : m * 2 ^ 31 ≤ t
  months_lt = let product : m * 28 ≤ m * a = mul-le-mul_left m low in omega (arith, s.sum)

  months-floor : floor (div (whole t) (whole (a * 86400000))) ≡ whole m
  months-floor =
      let bound = months_lt in
      let rest = in_month-eq in
      quotient t (a * 86400000) 32 m (omega arith) (omega arith) (omega arith) (omega arith) (
        months-quotient a t m (d * 86400000 + h * 3600000 + k * 60000 + s.rest) low
          (omega (arith, s.sum)) (omega (arith, s.days_lt, s.hours_lt, s.minutes_lt, s.rest_lt)))

  days-floor : floor (div (whole in_month) (whole 86400000)) ≡ whole d
  days-floor =
      quotient in_month 86400000 27 d (omega arith) (omega arith) (omega arith)
        (omega (arith, s.days_lt)) (omega (arith, in_month-eq, s.hours_lt, s.minutes_lt, s.rest_lt))

  hours-floor : floor (div (whole in_day) (whole 3600000)) ≡ whole h
  hours-floor =
      quotient in_day 3600000 22 h (omega arith) (omega arith) (omega arith)
        (omega (arith, s.hours_lt)) (omega (arith, in_day-eq, s.minutes_lt, s.rest_lt))

  minutes-floor : floor (div (whole in_hour) (whole 60000)) ≡ whole k
  minutes-floor =
      quotient in_hour 60000 16 k (omega arith) (omega arith) (omega arith)
        (omega (arith, s.minutes_lt)) (omega (arith, in_hour-eq, s.rest_lt))

  pub time_parts-whole :
      time_parts a (whole t)
      ≡ record { months = whole m; days = whole d; hours = whole h; minutes = whole k }
  unfolding time_parts in_month in_day in_hour
  time_parts-whole = rw (
    of_ℕ-whole (a * 86400000) (omega arith),
    of_ℕ-whole a (omega arith),
    of_ℕ-whole 24 (omega arith),
    of_ℕ-whole 60 (omega arith),
    of_ℕ-whole 1000 (omega arith),
    of_ℕ-whole 86400000 (omega arith),
    of_ℕ-whole 3600000 (omega arith),
    of_ℕ-whole 60000 (omega arith),
    months-floor,
    mul-whole m a (omega (arith, s.sum)),
    times_day (m * a) (omega (arith, s.sum)),
    sub-whole t (m * a * 86400000) (omega arith) (omega (arith, s.sum)),
    days-floor,
    times_day d (omega (arith, s.days_lt)),
    sub-whole (t - m * a * 86400000) (d * 86400000) (omega (arith, s.sum))
        (omega (arith, in_month-eq)),
    hours-floor,
    times_1000 h (omega (arith, s.hours_lt)),
    sub-whole (t - m * a * 86400000 - d * 86400000) (h * 3600000)
        (omega (arith, in_day-eq, in_month-eq, s.sum)) (omega (arith, in_day-eq)),
    minutes-floor,
  )
