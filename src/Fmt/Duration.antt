-- ===== src/Fmt/Duration.antt =====
-- `epochToDuration` of helpers/fmt.js.
use ribs.Base.{ℕ, [], ◌++◌, Text, codes, trim, if◌then◌else◌, ◌*◌}
use ribs.Number.Defs.{Number, of_ℕ, abs, mul, div, lt, floor, rem}
use ribs.Number.Print.{to_text}

-- The constants of `epochToDuration`.
pub record Duration : Type 0 where
  pub months : Number
  pub days : Number
  pub hours : Number
  pub minutes : Number

abbrev day : ℕ
day = 24 * 60 * 60

unfoldable pub duration_parts : Number → Duration
duration_parts epochs =
    let total_seconds = mul (abs epochs) (of_ℕ 30) in
    record {
      months = floor (div total_seconds (of_ℕ (30 * day)));
      days = floor (div (rem total_seconds (of_ℕ (30 * day))) (of_ℕ day));
      hours = floor (div (rem total_seconds (of_ℕ day)) (of_ℕ 3600));
      minutes = floor (div (rem total_seconds (of_ℕ 3600)) (of_ℕ 60));
    }

-- `if (x > 0) duration += x + suffix`
abbrev pub part_text : Number → Text → Text
part_text x suffix = if lt (of_ℕ 0) x then to_text x ++ suffix else []

unfoldable pub duration_text : Duration → Text
duration_text d =
    part_text d.months (codes "mo ")
    ++ (part_text d.days (codes "d ")
        ++ (part_text d.hours (codes "h ") ++ part_text d.minutes (codes "m")))

unfoldable pub epoch_to_duration : Number → Text
epoch_to_duration epochs =
    let duration = trim (duration_text (duration_parts epochs)) in
    if lt epochs (of_ℕ 0) then duration ++ codes " ago" else codes "in " ++ duration
