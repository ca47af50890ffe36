-- ===== src/Fmt/Times.antt =====
-- `epochToDuration` on whole numbers of epochs.
use native.Mathlib.Nat.{
  mul-div_cancel, mul-pos, mul-mod_left, mul-lt-mul_of_pos_right, pow-le-pow_right, mul-le-mul,
}
use ribs.Base.{
  ℕ, zero, suc, ◌+◌, ◌*◌, ◌/◌, ◌%◌, ◌^◌, ◌≤◌, ◌<◌, ◌≡◌, refl, ap, ◌∙◌, true, false, [], ◌++◌, arith,
  ltb, lt→ltb, not-ltb, ==_ne, if◌then◌else◌, Text, codes, decimal, trim,
}
use ribs.Number.Rounding.{unit, significands}
use ribs.Number.Defs.{fin, lt, floor, div}
use ribs.Number.Exact.{whole, of_ℕ-whole, mul-whole, lt-whole, rem-whole, floor-div-whole, unit-pos}
use ribs.Number.Print.{to_text}
use ribs.Fmt.Duration.{duration_parts, duration_text, part_text, epoch_to_duration}

-- A part of a time span: left out when it is zero.
abbrev pub shown : ℕ → Text → Text
shown n suffix = if ltb 0 n then decimal n ++ suffix else []

abbrev pub span_text : ℕ → ℕ → ℕ → ℕ → Text
span_text months days hours minutes =
    shown months (codes "mo ")
    ++ (shown days (codes "d ") ++ (shown hours (codes "h ") ++ shown minutes (codes "m")))

-- The parts of a number of seconds, in months of 30 days.
pub record IsSpan (seconds months days hours minutes : ℕ) : Type 0 where
  pub rest : ℕ
  pub total : months * 2592000 + days * 86400 + hours * 3600 + minutes * 60 + rest ≡ seconds
  pub days_lt : days < 30
  pub hours_lt : hours < 24
  pub minutes_lt : minutes < 60
  pub rest_lt : rest < 60

pub to_text-whole : (n : ℕ) → n < significands → to_text (whole n) ≡ decimal n
unfolding to_text decimal
to_text-whole zero h = let e : 0 * unit ≡ 0 = omega arith in rw e
to_text-whole (suc m) h =
    let n = suc m in
    rw (
      ==_ne (n * unit) 0 (let p = unit-pos in omega arith),
      mul-mod_left n unit,
      lt→ltb (n * unit) (significands * unit) (mul-lt-mul_of_pos_right h unit-pos),
      mul-div_cancel n unit-pos,
    )

pub part_text-whole :
    (n : ℕ) (suffix : Text) → n < significands → part_text (whole n) suffix ≡ shown n suffix
part_text-whole n suffix h = rw (of_ℕ-whole 0 (omega arith), lt-whole 0 n, to_text-whole n h)

floor-div-of_ℕ :
    (a b t q : ℕ)
    → 0 < b
    → b ≤ 2 ^ t
    → t ≤ 22
    → q < 2 ^ 30
    → a / b ≡ q
    → floor (div (whole a) (whole b)) ≡ whole q
floor-div-of_ℕ a b t q hb ht hu hq e =
    let power : 2 ^ t ≤ 2 ^ 22 = pow-le-pow_right (omega arith) hu in
    let up : (a / b + 1) * 2 ^ t ≤ 2 ^ 30 * 2 ^ 22 = mul-le-mul {n₂ = 2 ^ 30} (omega arith) power in
    floor-div-whole a b t hb ht (omega arith) (omega arith) ∙ ap whole e

parts-whole :
    (e : ℕ) (m d h k : ℕ)
    → e < 2 ^ 40
    → IsSpan (e * 30) m d h k
    → duration_parts (whole e)
      ≡ record { months = whole m; days = whole d; hours = whole h; minutes = whole k }
unfolding duration_parts
parts-whole e m d h k he s =
    let t : ℕ = e * 30 in
    rw (
      of_ℕ-whole 30 (omega arith),
      of_ℕ-whole 2592000 (omega arith),
      of_ℕ-whole 86400 (omega arith),
      of_ℕ-whole 3600 (omega arith),
      of_ℕ-whole 60 (omega arith),
      mul-whole e 30 (omega arith),
      rem-whole t 2592000 (omega arith),
      rem-whole t 86400 (omega arith),
      rem-whole t 3600 (omega arith),
      floor-div-of_ℕ t 2592000 22 m (omega arith) (omega arith) (omega arith) (omega arith)
          (omega arith),
      floor-div-of_ℕ (t % 2592000) 86400 17 d (omega arith) (omega arith) (omega arith)
          (omega arith) (omega arith),
      floor-div-of_ℕ (t % 86400) 3600 12 h (omega arith) (omega arith) (omega arith) (omega arith)
          (omega arith),
      floor-div-of_ℕ (t % 3600) 60 6 k (omega arith) (omega arith) (omega arith) (omega arith)
          (omega arith),
    )

duration_text-whole :
    (e : ℕ) (m d h k : ℕ)
    → e < 2 ^ 40
    → IsSpan (e * 30) m d h k
    → duration_text (duration_parts (whole e)) ≡ span_text m d h k
unfolding duration_text
duration_text-whole e m d h k he s = rw (
  parts-whole e m d h k he s,
  part_text-whole m (codes "mo ") (omega arith),
  part_text-whole d (codes "d ") (omega arith),
  part_text-whole h (codes "h ") (omega arith),
  part_text-whole k (codes "m") (omega arith),
)

-- An epoch ahead by whole epochs is shown as the months, days, hours and minutes that the seconds
-- up to it are made of, without those that are zero and without the rest below a minute.
epoch_to_duration-ahead :
    (e m d h k : ℕ)
    → e < 2 ^ 40
    → IsSpan (e * 30) m d h k
    → epoch_to_duration (whole e) ≡ codes "in " ++ trim (span_text m d h k)
unfolding epoch_to_duration
epoch_to_duration-ahead e m d h k he s = rw (
  duration_text-whole e m d h k he s,
  of_ℕ-whole 0 (omega arith),
  lt-whole e 0,
  not-ltb e 0 (omega arith),
)

duration_parts-back : (e : ℕ) → duration_parts (fin true (e * unit)) ≡ duration_parts (whole e)
unfolding duration_parts
duration_parts-back e = refl

pub lt-back : (a b : ℕ) → lt (fin true a) (fin false b) ≡ ltb 0 (a + b)
unfolding lt
lt-back a b = refl

-- An epoch that lies back is shown by the same parts, with " ago" behind them.
epoch_to_duration-back :
    (e m d h k : ℕ)
    → 0 < e
    → e < 2 ^ 40
    → IsSpan (e * 30) m d h k
    → epoch_to_duration (fin true (e * unit)) ≡ trim (span_text m d h k) ++ codes " ago"
unfolding epoch_to_duration
epoch_to_duration-back e m d h k pos he s =
    let past : 0 < e * unit + 0 * unit = (let p = mul-pos pos unit-pos in omega arith) in
    rw (
      duration_parts-back e,
      duration_text-whole e m d h k he s,
      of_ℕ-whole 0 (omega arith),
      lt-back (e * unit) (0 * unit),
      lt→ltb 0 (e * unit + 0 * unit) past,
    )

-- An epoch ahead or back by whole epochs is shown as the months, days, hours and minutes that the
-- seconds between are made of, without those that are zero and without the rest below a minute: with
-- "in " before them or " ago" behind them.
pub epoch_to_duration-shown :
    (e m d h k : ℕ)
    → 0 < e
    → e < 2 ^ 40
    → IsSpan (e * 30) m d h k
    → (epoch_to_duration (whole e) ≡ codes "in " ++ trim (span_text m d h k))
      × (epoch_to_duration (fin true (e * unit)) ≡ trim (span_text m d h k) ++ codes " ago")
epoch_to_duration-shown e m d h k pos he s =
    (epoch_to_duration-ahead e m d h k he s, epoch_to_duration-back e m d h k pos he s)
