-- ===== src/Number/Print.antt =====
-- From numbers to text and back: `toFixed`, `toString`, `parseInt`.
use ribs.Base.{
  ℕ, zero, suc, ◌+◌, ◌-◌, ◌*◌, ◌/◌, ◌%◌, ◌^◌, Bool, true, false, ◌&&◌, ◌||◌, [], ◌∷◌, ◌++◌, Text,
  codes, decimal, ltb, leb, ◌==◌, if◌then◌else◌, length, take, drop,
}
use ribs.Number.Rounding.{unit, significands, round_ratio}
use ribs.Number.Defs.{
  Number, nan, inf, fin, of_ℕ, add, sub, mul, div, pack, huge, lt, ge, equal, or_zero, floor, round,
  rem,
}

abbrev pub sign_text : Bool → Text
sign_text true = codes "-"
sign_text false = []

-- The last `f` decimal digits of `n`.
abbrev pub last_digits : ℕ → ℕ → Text
last_digits zero n = []
last_digits (suc f) n = last_digits f (n / 10) ++ (48 + n % 10) ∷ []

abbrev zeros : ℕ → Text
zeros zero = []
zeros (suc n) = 48 ∷ zeros n

-- A magnitude above zero is s * 10 ^ (p - 324 - k), with k digits in s.
record Digits : Type 0 where
  significand : ℕ
  count : ℕ
  point : ℕ

-- 10 ^ 324 times the smallest double is above 1, so exponents are counted from -324.
abbrev bias : ℕ
bias = 10 ^ 324

reads_back : ℕ → ℕ → ℕ → ℕ → Bool
reads_back mag s k p = round_ratio (s * 10 ^ p * unit) (bias * 10 ^ k) == mag

-- The shortest digits that read back as the magnitude, and of these the nearest to it.
shortest : ℕ → ℕ → ℕ → ℕ → Digits
unfolding reads_back
shortest zero mag p k = record { significand = 0; count = k; point = p }
shortest (suc f) mag p k =
    let num = mag * bias * 10 ^ k in
    let den = unit * 10 ^ p in
    let s = num / den in
    let up = ltb den (2 * (num % den)) in
    let low = reads_back mag s k p in
    let high = reads_back mag (s + 1) k p in
    let rest = shortest f mag p (k + 1) in
    if high && (up || (if low then false else true))
    then (if s + 1 == 10 ^ k
        then record { significand = 1; count = 1; point = p + 1 }
        else record { significand = s + 1; count = k; point = p })
    else if low
    then record { significand = s; count = k; point = p }
    else rest

digits_of : ℕ → Digits
unfolding shortest
digits_of mag = shortest 17 mag (length (decimal (mag * bias / unit))) 1

exponent_text : ℕ → Text
exponent_text p =
    if leb 325 p then codes "e+" ++ decimal (p - 325) else codes "e-" ++ decimal (325 - p)

-- Number::toString on a magnitude above zero.
positive_text : Digits → Text
unfolding exponent_text
positive_text d =
    let t = decimal d.significand in
    let k = d.count in
    let p = d.point in
    if leb (324 + k) p && leb p 345
    then t ++ zeros (p - 324 - k)
    else if ltb 324 p && leb p 345
    then take (p - 324) t ++ (b'.' ∷ drop (p - 324) t)
    else if ltb 318 p && leb p 324
    then codes "0." ++ (zeros (324 - p) ++ t)
    else if k == 1
    then t ++ exponent_text p
    else take 1 t ++ ((b'.' ∷ drop 1 t) ++ exponent_text p)

-- `String(x)`, which template literals use. On a whole number below 2 ^ 53 the shortest digits and
-- their zeros are the number's own numeral.
unfoldable pub to_text : Number → Text
unfolding digits_of positive_text
to_text nan = codes "NaN"
to_text (inf s) = sign_text s ++ codes "Infinity"
to_text (fin s k) =
    if k == 0
    then codes "0"
    else if (k % unit == 0) && ltb k (significands * unit)
    then sign_text s ++ decimal (k / unit)
    else sign_text s ++ positive_text (digits_of k)

-- The magnitude in units of 10 ^ -f, halves up.
unfoldable pub scaled : ℕ → ℕ → ℕ
scaled f k = (2 * (k * 10 ^ f) + unit) / (2 * unit)

abbrev pub point_text : ℕ → ℕ → Text
point_text zero n = decimal n
point_text (suc f) n = decimal (n / 10 ^ suc f) ++ (b'.' ∷ last_digits (suc f) n)

-- `x.toFixed(f)`
unfoldable pub to_fixed : ℕ → Number → Text
unfolding to_text
to_fixed f nan = codes "NaN"
to_fixed f (inf s) = to_text (inf s)
to_fixed f (fin s k) =
    if leb (10 ^ 21 * unit) k
    then to_text (fin s k)
    else sign_text (s && ltb 0 k) ++ point_text f (scaled f k)

-- `parseInt(x, 10)` parses the text of `x`. From the double nearest to 10 ^ -6 up to 10 ^ 21 that text
-- has no exponent, so the integer part comes out; elsewhere only the first digit is read.
unfoldable pub parse_int : Number → Number
unfolding digits_of
parse_int nan = nan
parse_int (inf s) = nan
parse_int (fin s k) =
    if k == 0
    then of_ℕ 0
    else if leb (round_ratio unit (10 ^ 6)) k && ltb k (10 ^ 21 * unit)
    then fin s (k / unit * unit)
    else (let d = digits_of k in fin s (d.significand / 10 ^ (d.count - 1) % 10 * unit))

-- Named on the `unfolding` line of a test, it opens the arithmetic and the printing.
unfoldable pub running : Unit {0}
unfolding to_text to_fixed parse_int scaled decimal round_ratio unit of_ℕ add sub mul div pack huge
    lt ge equal or_zero floor round rem
running = tt
