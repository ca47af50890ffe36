-- ===== src/Examples/Formats.antt =====
-- helpers/fmt.js on concrete numbers.
use ribs.Base.{
  ◌⊎◌, ℕ, ◌≤◌, ◌*◌, ◌≡◌, refl, true, false, none, some, ◌++◌, arith, trim, decimal, codes,
}
use ribs.Number.Defs.{fin, inf, of_ℕ, div, huge}
use ribs.Number.Rounding.{unit}
use ribs.Number.Exact.{whole}
use ribs.Number.Print.{running, parse_int}
use ribs.Number.Defs.{equal}
use ribs.Fmt.Units.{
  format_fil, fil_text, scale_loop, byte_units, format_bytes_binary, format_num, format_num6,
}
use ribs.Fmt.Duration.{epoch_to_duration, duration_parts, duration_text}
use ribs.Fmt.Bytes.{size_text, format_bytes_binary-whole}
use ribs.Fmt.Times.{IsSpan, span_text, epoch_to_duration-shown}
use ribs.Fmt.Prices.{thousandths, IsLarge, IsLast, format_fil-unit}
use ribs.Number.Bounds.{IsDouble}
use ribs.Fmt.Loops.{Returns, scale_loop-inf, formatters-Return}
use ribs.Status.Wallet.{number, one_fil, amount_text}

format_bytes_binary-whole_example :
    format_bytes_binary (whole 1536) ≡ some (size_text byte_units 1536 1)
format_bytes_binary-whole_example =
    format_bytes_binary-whole 1536 1 (omega arith) (omega arith) (λ h. omega arith) (omega arith)

kibibytes : size_text byte_units 1536 1 ≡ codes "1.50 KiB"
unfolding decimal
kibibytes = refl

-- 100000 epochs are 34 days, 17 hours and 20 minutes.
span : IsSpan (100000 * 30) 1 4 17 20
span = record {
  rest = 0;
  total = omega arith;
  days_lt = omega arith;
  hours_lt = omega arith;
  minutes_lt = omega arith;
  rest_lt = omega arith;
}

epoch_to_duration-shown_example :
    (epoch_to_duration (whole 100000) ≡ codes "in " ++ trim (span_text 1 4 17 20))
    × (epoch_to_duration (fin true (100000 * unit)) ≡ trim (span_text 1 4 17 20) ++ codes " ago")
epoch_to_duration-shown_example =
    epoch_to_duration-shown 100000 1 4 17 20 (omega arith) (omega arith) span

IsDouble-1050 : IsDouble (whole 1050)
unfolding huge unit
IsDouble-1050 = omega arith

formatters-Return_example :
    Returns (format_bytes_binary (whole 1050))
    × Returns (format_num6 (whole 1050))
    × ((whole 1050 ≡ inf false) ⊎ Returns (format_num (whole 1050) 2))
formatters-Return_example = formatters-Return (whole 1050) 2 IsDouble-1050

-- 500 rounds are not enough for +Infinity.
endless : scale_loop 500 (of_ℕ 1000) (inf false) 0 ≡ none
endless = scale_loop-inf 500 0

-- The double of 10 ^ -6 is read as "0.000001", and half of it as "5e-7".
parsed_millionth : parse_int (div (of_ℕ 1) (of_ℕ 1000000)) ≡ of_ℕ 0
unfolding running
parsed_millionth = refl

parsed_half : parse_int (div (of_ℕ 1) (of_ℕ 2000000)) ≡ of_ℕ 5
unfolding running
parsed_half = refl

-- The thousandths lose their leading zero.
num6_1050 : format_num6 (of_ℕ 1050) ≡ some (codes "1.50 k")
unfolding format_num6 running scale_loop
num6_1050 = refl

duration_100000 : epoch_to_duration (of_ℕ 100000) ≡ codes "in 1mo 4d 17h 20m"
unfolding epoch_to_duration running duration_parts duration_text
duration_100000 = refl

-- The amount that the menu of the wallet starts with, as it is sent.
first_amount : amount_text (λ value. of_ℕ 0) (number one_fil) ≡ codes "1e+36"
unfolding amount_text running
first_amount = refl

price_not_zero : equal (whole 2500) (of_ℕ 0) ≡ false
unfolding running
price_not_zero = refl

format_fil-unit_example :
    (k : ℕ) × (k ≤ 6)
    × (format_fil (whole 2500) ≡ fil_text (thousandths k (whole 2500), k))
    × IsLarge k (whole 2500)
    × IsLast 6 k (whole 2500)
format_fil-unit_example = format_fil-unit (whole 2500) price_not_zero
