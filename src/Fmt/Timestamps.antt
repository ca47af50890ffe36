-- ===== src/Fmt/Timestamps.antt =====
-- What `formatTimestamp` of helpers/fmt.js shows of a whole second, ahead or back.
use ribs.Base.{
  ℕ, ◌+◌, ◌-◌, ◌*◌, ◌^◌, ◌≤◌, ◌<◌, ◌≡◌, ap, ◌∙◌, true, false, some, ◌++◌, arith, Text, codes,
  decimal, lt→ltb, not-ltb,
}
use native.Mathlib.Nat.{mul-pos}
use ribs.Number.Rounding.{unit}
use ribs.Number.Exact.{whole, of_ℕ-whole, mul-whole, sub-whole, sub-whole_back, lt-whole, unit-pos}
use ribs.Fmt.Times.{shown, to_text-whole, lt-back}
use ribs.Fmt.Dates.{Dates, before_t, days_in_month, length_text, parts_text, format_timestamp}
use ribs.Fmt.Stamps.{IsStretch, part_if-whole, days_in_month-range, months_lt, time_parts-whole}

-- Months and days are left out where they are zero, hours and minutes never.
abbrev pub stretch_text : ℕ → ℕ → ℕ → ℕ → Text
stretch_text months days hours minutes =
    shown months (codes "mo ")
    ++ (shown days (codes "d ")
        ++ (decimal hours ++ (codes "h " ++ (decimal minutes ++ codes "m"))))

length_text-whole :
    (a t m d h k : ℕ)
    → 28 ≤ a
    → a ≤ 31
    → t < 2 ^ 50
    → IsStretch a t m d h k
    → length_text a (whole t) ≡ stretch_text m d h k
unfolding length_text
length_text-whole a t m d h k low high ht s =
    let bound = months_lt a t m d h k low high ht s in
    ap parts_text (time_parts-whole a t m d h k low high ht s)
    ∙ (rw (
      part_if-whole m (codes "mo ") (omega arith),
      part_if-whole d (codes "d ") (omega (arith, s.days_lt)),
      to_text-whole h (omega (arith, s.hours_lt)),
      to_text-whole k (omega (arith, s.minutes_lt)),
    ))

module _ (dates : Dates) (u now m d h k : ℕ) {iso : Text} (in_range : u * 1000 < 2 ^ 50)
    (now_in_range : now < 2 ^ 50) (value : dates.time_value (whole (u * 1000)) ≡ whole (u * 1000))
    (formatted : dates.to_iso_string (whole (u * 1000)) ≡ some iso) where
  abbrev a_month : ℕ
  a_month = days_in_month (dates.full_year (whole (u * 1000))) (dates.month (whole (u * 1000)))

  -- A whole second at `now` or later, within 2 ^ 50 milliseconds, is shown by its date and by how
  -- far it is ahead: the months of the length of its own month, days, hours and minutes of that
  -- time, without months or days that are zero and without the rest below a minute.
  pub format_timestamp-ahead :
      now ≤ u * 1000
      → IsStretch a_month (u * 1000 - now) m d h k
      → format_timestamp dates (whole now) (whole u) false
        ≡ some (before_t iso ++ (codes ", " ++ (codes "in " ++ stretch_text m d h k)))
  unfolding format_timestamp
  format_timestamp-ahead le s =
      let (low, high) =
        days_in_month-range (dates.full_year (whole (u * 1000))) (dates.month (whole (u * 1000))) in
      rw (
        of_ℕ-whole 1000 (omega arith),
        of_ℕ-whole 0 (omega arith),
        mul-whole u 1000 (omega arith),
        value,
        formatted,
        sub-whole (u * 1000) now (omega arith) le,
        lt-whole (u * 1000 - now) 0,
        not-ltb (u * 1000 - now) 0 (omega arith),
        length_text-whole a_month (u * 1000 - now) m d h k low high (omega arith) s,
      )

  -- A whole second before `now` is shown by its date and the same parts of the time since then,
  -- with " ago" behind.
  pub format_timestamp-back :
      u * 1000 < now
      → IsStretch a_month (now - u * 1000) m d h k
      → format_timestamp dates (whole now) (whole u) false
        ≡ some (before_t iso ++ (codes ", " ++ (stretch_text m d h k ++ codes " ago")))
  unfolding format_timestamp
  format_timestamp-back past s =
      let (low, high) =
        days_in_month-range (dates.full_year (whole (u * 1000))) (dates.month (whole (u * 1000))) in
      let pos : 0 < (now - u * 1000) * unit + 0 * unit =
        (let p : 0 < (now - u * 1000) * unit = mul-pos (omega arith) unit-pos in omega arith) in
      rw (
        of_ℕ-whole 1000 (omega arith),
        of_ℕ-whole 0 (omega arith),
        mul-whole u 1000 (omega arith),
        value,
        formatted,
        sub-whole_back (u * 1000) now (omega arith) past,
        lt-back ((now - u * 1000) * unit) (0 * unit),
        lt→ltb 0 ((now - u * 1000) * unit + 0 * unit) pos,
        length_text-whole a_month (now - u * 1000) m d h k low high (omega arith) s,
      )

  -- With `dateOnly` it is the date alone.
  pub format_timestamp-date :
      format_timestamp dates (whole now) (whole u) true ≡ some (before_t iso)
  unfolding format_timestamp
  format_timestamp-date =
      rw (of_ℕ-whole 1000 (omega arith), mul-whole u 1000 (omega arith), value, formatted)
