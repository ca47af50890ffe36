-- ===== src/Fmt/Units.antt =====
-- The formatters of helpers/fmt.js that scale a number and put a unit behind it.
-- `none` is a loop that has not ended within its fuel.
use mathlib.Core.Option
use ribs.Base.{
  ℕ, zero, suc, ◌+◌, ◌&&◌, Option, none, some, List, [], ◌∷◌, ◌++◌, Text, codes, trim, get_elem?,
  ltb, if◌then◌else◌,
}
use ribs.Number.Defs.{Number, of_ℕ, add, sub, mul, div, lt, equal, ge, or_zero, floor}
use ribs.Number.Print.{to_text, to_fixed, parse_int}

-- `while (n >= base && ++l) { n = n / base; }`: `++l` is never 0.
unfoldable pub scale_loop : ℕ → Number → Number → ℕ → Option (Number × ℕ)
scale_loop zero base n l = none
scale_loop (suc f) base n l =
    let rest = scale_loop f base (div n base) (l + 1) in if ge n base then rest else some (n, l)

-- 1000 ^ 120 is above the largest double.
abbrev pub loop_fuel : ℕ
loop_fuel = 120

-- `units[l]` in a string: past the end it reads "undefined".
abbrev pub unit_name : List Text → ℕ → Text
unit_name units l = elim (get_elem? units l) [ none ↦ codes "undefined" | some u ↦ u ]

abbrev pub byte_units : List Text
byte_units =
    codes "B"
    ∷ codes "KiB"
    ∷ codes "MiB"
    ∷ codes "GiB"
    ∷ codes "TiB"
    ∷ codes "PiB"
    ∷ codes "EiB"
    ∷ codes "ZiB"
    ∷ codes "YiB"
    ∷ []

abbrev pub bit_units : List Text
bit_units =
    codes "bps"
    ∷ codes "Kbps"
    ∷ codes "Mbps"
    ∷ codes "Gbps"
    ∷ codes "Tbps"
    ∷ codes "Pbps"
    ∷ codes "Ebps"
    ∷ codes "Zbps"
    ∷ codes "Ybps"
    ∷ []

abbrev pub count_units : List Text
count_units =
    []
    ∷ codes "k"
    ∷ codes "M"
    ∷ codes "G"
    ∷ codes "T"
    ∷ codes "P"
    ∷ codes "E"
    ∷ codes "Z"
    ∷ codes "Y"
    ∷ []

abbrev pub fil_units : List Text
fil_units =
    codes "aFIL"
    ∷ codes "fFIL"
    ∷ codes "pFIL"
    ∷ codes "nFIL"
    ∷ codes "uFIL"
    ∷ codes "mFIL"
    ∷ codes "FIL"
    ∷ []

-- `n.toFixed(l > 0 ? digits : 0) + ' ' + units[l]`
abbrev pub scaled_text : ℕ → List Text → Number × ℕ → Text
scaled_text digits units (n, l) =
    to_fixed (if ltb 0 l then digits else 0) n ++ (codes " " ++ unit_name units l)

unfoldable pub format_bytes_binary : Number → Option Text
format_bytes_binary bytes =
    Option.map (scaled_text 2 byte_units)
      (scale_loop loop_fuel (of_ℕ 1024) (or_zero (parse_int bytes)) 0)

unfoldable pub format_bits_binary : Number → Option Text
format_bits_binary bytes =
    Option.map (scaled_text 2 bit_units)
      (scale_loop loop_fuel (of_ℕ 1024) (or_zero (parse_int (mul bytes (of_ℕ 8)))) 0)

-- `parseFloat` of a number is the number.
unfoldable pub format_num : Number → ℕ → Option Text
format_num nm frac_digits =
    Option.map (λ r. trim (scaled_text frac_digits count_units r))
      (scale_loop loop_fuel (of_ℕ 1000) (or_zero nm) 0)

unfoldable pub num6_text : Number × ℕ → Text
num6_text (n, l) =
    let int_part = floor n in
    let decimal_part = floor (mul (sub n int_part) (of_ℕ 1000)) in
    let formatted = if lt (of_ℕ 0) decimal_part then codes "." ++ to_text decimal_part else [] in
    to_text int_part ++ (formatted ++ (codes " " ++ unit_name count_units l))

unfoldable pub format_num6 : Number → Option Text
unfolding num6_text
format_num6 bytes =
    Option.map num6_text (scale_loop loop_fuel (of_ℕ 1000) (or_zero (parse_int bytes)) 0)

unfoldable pub calc_ema : Number → Number → Number → Number
calc_ema current_value prev_ema smoothing_factor =
    add (mul smoothing_factor current_value) (mul (sub (of_ℕ 1) smoothing_factor) prev_ema)

unfoldable pub format_percent : Number → Text
format_percent num = to_fixed 1 (mul num (of_ℕ 100)) ++ codes "%"

-- The loop of `formatFil`: `left` counts the units above the present one.
unfoldable pub fil_loop : ℕ → Number → ℕ → Number × ℕ
fil_loop zero n l = (n, l)
fil_loop (suc left) n l =
    let rest = fil_loop left (div n (of_ℕ 1000)) (l + 1) in
    if ge n (of_ℕ 1000) then rest else (n, l)

abbrev pub fil_text : Number × ℕ → Text
fil_text (n, l) =
    to_fixed (if lt n (of_ℕ 10) && ltb 0 l then 1 else 0) n ++ (codes " " ++ unit_name fil_units l)

unfoldable pub format_fil : Number → Text
unfolding fil_loop
format_fil n = if equal n (of_ℕ 0) then codes "0" else fil_text (fil_loop 6 n 0)
