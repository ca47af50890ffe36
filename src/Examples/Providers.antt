-- ===== src/Examples/Providers.antt =====
-- routes/Providers.js and routes/Provider.js on concrete providers, and dates of helpers/fmt.js.
use mathlib.Core.Option
use ribs.Base.{
  List, ℕ, Option, none, ◌<◌, ◌⊎◌, ◌==◌, if◌then◌else◌, ◌≡◌, ◌++◌, refl, true, false, none, some,
  Option, [], ◌∷◌, map, split, arith, Text, codes,
}
use ribs.Number.Defs.{Number, nan, inf, fin}
use ribs.Number.Exact.{whole}
use ribs.Fmt.Dates.{Dates, format_timestamp}
use ribs.Fmt.Stamps.{IsStretch}
use ribs.Fmt.Timestamps.{stretch_text, format_timestamp-ahead, format_timestamp-back}
use ribs.Providers.Page.{refresh, Provider, widths}
use ribs.Providers.Percentages.{IsPercentage, IsCounted, widths-IsPercentage}
use ribs.Providers.Refresh.{attempt, listed_after, refresh-listed}
use ribs.Rpc.Retry.{Answer, ok, failed, waits, Failing}
use ribs.Providers.Rows.{generate_csv_data}
use ribs.Providers.Csv.{columns, fields, IsListed, generate_csv_data-fields}

-- A calendar that has one day.
abbrev iso_text : Number → Option Text
iso_text nan = none
iso_text (inf s) = none
iso_text (fin s k) = some (codes "2023-11-14T22:13:20.000Z")

abbrev pub one_day : Dates
one_day = record {
  time_value = λ t. t;
  to_iso_string = iso_text;
  full_year = λ t. 2023;
  month = λ t. 10;
}

-- A day, two hours, three minutes and some seconds.
stretch : IsStretch 30 93785000 0 1 2 3
stretch = record {
  rest = 5000;
  sum = omega arith;
  days_lt = omega arith;
  hours_lt = omega arith;
  minutes_lt = omega arith;
  rest_lt = omega arith;
}

format_timestamp-ahead_example :
    format_timestamp one_day (whole 1699906215000) (whole 1700000000) false
    ≡ some (codes "2023-11-14" ++ (codes ", " ++ (codes "in " ++ stretch_text 0 1 2 3)))
format_timestamp-ahead_example =
    format_timestamp-ahead one_day 1700000000 1699906215000 0 1 2 3 (omega arith) (omega arith) refl
      refl (omega arith) stretch

timestamp_back :
    format_timestamp one_day (whole 1700093785000) (whole 1700000000) false
    ≡ some (codes "2023-11-14" ++ (codes ", " ++ (stretch_text 0 1 2 3 ++ codes " ago")))
timestamp_back =
    format_timestamp-back one_day 1700000000 1700093785000 0 1 2 3 (omega arith) (omega arith) refl
      refl (omega arith) stretch

abbrev provider : Provider
provider = record {
  id = whole 1234;
  ask_min_piece_size = whole 1024;
  ask_max_piece_size = whole 4096;
  ask_price = whole 5;
  ask_verified_price = whole 0;
  booster_http = true;
  booster_bitswap = false;
  most_recent_deal_start = whole 1700000000;
  deal_started = whole 12;
  deal_rejected = whole 3;
  deal_fail = whole 1;
  deal_success = whole 8;
  retriev_deals = whole 5;
  unretriev_deals = whole 2;
}

counted : IsCounted provider
counted = record {
  started = 12;
  rejected = 3;
  fail = 1;
  success = 8;
  retriev = 5;
  unretriev = 2;
  deal_started = refl;
  deal_rejected = refl;
  deal_fail = refl;
  deal_success = refl;
  retriev_deals = refl;
  unretriev_deals = refl;
  rejected_le = omega arith;
  fail_le = omega arith;
  success_le = omega arith;
  started_lt = omega arith;
  total_lt = omega arith;
}

widths-IsPercentage_example :
    IsPercentage (widths provider).rejected
    × IsPercentage (widths provider).fail
    × IsPercentage (widths provider).success
    × IsPercentage (widths provider).retriev
widths-IsPercentage_example = widths-IsPercentage provider counted

abbrev iso : Number → Text
iso t = codes "2023-11-14T22:13:20.000Z"

listed : IsListed one_day iso provider
listed = record {
  counted = counted;
  number = 1234;
  number_lt = omega arith;
  id = refl;
  second = 1700000000;
  second_lt = omega arith;
  most_recent = refl;
  value = refl;
  formatted = refl;
  is_date = ground arith;
}

generate_csv_data-fields_example :
    Option.map
      (λ csv. map (split 44) (split 10 csv))
      (generate_csv_data one_day (whole 1700093785000) (provider ∷ provider ∷ []))
    ≡ some (columns ∷ map (fields one_day iso) (provider ∷ provider ∷ []))
generate_csv_data-fields_example =
    generate_csv_data-fields one_day iso 1700093785000 (omega arith) (provider ∷ provider ∷ [])
      (listed, (listed, tt))

-- A node that fails once and then has no providers.
abbrev lost : ℕ → Text → List ℕ → Answer (Option (List Provider)) ℕ
lost i method params = if i == 0 then failed i else ok none

refresh-listed_example :
    ((k : ℕ) × (reply : Option (List Provider)) × (k < 5)
      × Failing (attempt lost) 0 k
      × (attempt lost k ≡ ok reply)
      × (refresh lost (provider ∷ []) ≡ (listed_after reply (provider ∷ []), waits k)))
    ⊎ ((e : ℕ) × Failing (attempt lost) 0 4
        × (attempt lost 4 ≡ failed e)
        × (refresh lost (provider ∷ []) ≡ (provider ∷ [], waits 4)))
refresh-listed_example = refresh-listed lost (provider ∷ [])
