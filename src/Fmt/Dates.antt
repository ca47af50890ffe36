-- ===== src/Fmt/Dates.antt =====
-- `epochToDate` and `formatTimestamp` of helpers/fmt.js. `Date` is the language's and reads the time
-- zone: its methods are a parameter. A result is none where `toISOString` throws.
use mathlib.Core.Option
use ribs.Base.{
  ℕ, ◌*◌, ◌%◌, Bool, not, ◌&&◌, ◌||◌, Option, [], ◌∷◌, ◌++◌, Text, codes, ◌==◌, if◌then◌else◌,
}
use ribs.Number.Defs.{Number, of_ℕ, negate, add, sub, mul, div, lt, equal, floor, or_zero}
use ribs.Number.Print.{to_text}

-- Dates are their time values, in milliseconds.
pub record Dates : Type 0 where
  -- `new Date(t).getTime()`
  pub time_value : Number → Number
  -- `toISOString`
  pub to_iso_string : Number → Option Text
  -- `getFullYear` and `getMonth`
  pub full_year : Number → ℕ
  pub month : Number → ℕ

-- `s.split('T')[0]`
abbrev pub before_t : Text → Text
before_t [] = []
before_t (c ∷ s) = if c == b'T' then [] else c ∷ before_t s

-- `Date.UTC(2020, 9, 15, 22, 0, 0)`
abbrev pub reference_time : ℕ
reference_time = 1602799200000

abbrev pub is_leap_year : ℕ → Bool
is_leap_year year = (year % 4 == 0 && not (year % 100 == 0)) || year % 400 == 0

-- `daysInMonth[month]`
abbrev pub days_in_month : ℕ → ℕ → ℕ
days_in_month year month =
    if month == 1
    then (if is_leap_year year then 29 else 28)
    else if (month == 3 || month == 5) || (month == 8 || month == 10)
    then 30
    else 31

-- A part of the text that is left out where it is 0 or NaN.
abbrev pub part_if : Number → Text → Text
part_if x suffix = if equal (or_zero x) (of_ℕ 0) then [] else to_text x ++ suffix

-- The parts of a length of time in milliseconds, with months of `days` days.
pub record Parts : Type 0 where
  pub months : Number
  pub days : Number
  pub hours : Number
  pub minutes : Number

unfoldable pub time_parts : ℕ → Number → Parts
time_parts days_a_month diff =
    let months = floor (div diff (of_ℕ (days_a_month * 86400000))) in
    let month_ms =
      mul (mul (mul (mul (mul months (of_ℕ days_a_month)) (of_ℕ 24)) (of_ℕ 60)) (of_ℕ 60))
        (of_ℕ 1000) in
    let in_month = sub diff month_ms in
    let days = floor (div in_month (of_ℕ 86400000)) in
    let day_ms = mul (mul (mul (mul days (of_ℕ 24)) (of_ℕ 60)) (of_ℕ 60)) (of_ℕ 1000) in
    let in_day = sub in_month day_ms in
    let hours = floor (div in_day (of_ℕ 3600000)) in
    let in_hour = sub in_day (mul (mul (mul hours (of_ℕ 60)) (of_ℕ 60)) (of_ℕ 1000)) in
    record {
      months = months;
      days = days;
      hours = hours;
      minutes = floor (div in_hour (of_ℕ 60000));
    }

-- The text of a length of time, without its direction.
abbrev pub parts_text : Parts → Text
parts_text p =
    part_if p.months (codes "mo ")
    ++ (part_if p.days (codes "d ")
        ++ (to_text p.hours ++ (codes "h " ++ (to_text p.minutes ++ codes "m"))))

unfoldable pub length_text : ℕ → Number → Text
length_text days_a_month length = parts_text (time_parts days_a_month length)

module _ (dates : Dates) where
  -- `epochToDate`, for a time value of the reference.
  unfoldable pub epoch_to_date : Number → Number → Option Text
  epoch_to_date epochs reference =
      let total_seconds = mul epochs (of_ℕ 30) in
      Option.map before_t
        (dates.to_iso_string (dates.time_value (add reference (mul total_seconds (of_ℕ 1000)))))

  -- `formatTimestamp`, at the time `now`.
  unfoldable pub format_timestamp : Number → Number → Bool → Option Text
  format_timestamp now unix_timestamp date_only =
      let date : Number = dates.time_value (mul unix_timestamp (of_ℕ 1000)) in
      let diff : Number = sub date now in
      let days_a_month = days_in_month (dates.full_year date) (dates.month date) in
      let past : Bool = lt diff (of_ℕ 0) in
      let length = if past then negate diff else diff in
      let span = length_text days_a_month length in
      let text = λ (formatted : Text).
        if date_only
        then formatted
        else formatted
          ++ (codes ", " ++ (if past then span ++ codes " ago" else codes "in " ++ span)) in
      Option.map (λ iso. text (before_t iso)) (dates.to_iso_string date)
