-- ===== src/Number/Parse.antt =====
-- `parseInt(s)` of a string (the language's own): white space, a sign, "0x" for base 16, and the digits
-- up to the first character that is none.
use ribs.Base.{
  ℕ, ◌+◌, ◌-◌, ◌*◌, Bool, true, false, ◌&&◌, ◌||◌, List, [], ◌∷◌, Text, trim_start, leb, ltb, ◌==◌,
  if◌then◌else◌,
}
use ribs.Number.Rounding.{unit, round_ratio}
use ribs.Number.Defs.{Number, nan, pack}

-- The value of a digit or letter, and one that no base has for any other character.
abbrev pub digit : ℕ → ℕ
digit c =
    if leb 48 c && leb c 57
    then c - 48
    else if leb 97 c && leb c 122
    then c - 87
    else if leb 65 c && leb c 90
    then c - 55
    else 36

abbrev pub digits_prefix : ℕ → Text → List ℕ
digits_prefix base [] = []
digits_prefix base (c ∷ s) =
    let rest = digits_prefix base s in if ltb (digit c) base then digit c ∷ rest else []

abbrev pub value : ℕ → ℕ → List ℕ → ℕ
value base acc [] = acc
value base acc (d ∷ ds) = value base (acc * base + d) ds

abbrev pub number_of : Bool → ℕ → List ℕ → Number
number_of negative base [] = nan
number_of negative base (d ∷ ds) = pack negative (round_ratio (value base 0 (d ∷ ds) * unit) 1)

abbrev pub parse_digits : Bool → ℕ → Text → Number
parse_digits negative base s = number_of negative base (digits_prefix base s)

abbrev pub parse_unsigned : Bool → Text → Number
parse_unsigned negative [] = nan
parse_unsigned negative (c ∷ []) = parse_digits negative 10 (c ∷ [])
parse_unsigned negative (c ∷ x ∷ s) =
    if c == 48 && (x == 120 || x == 88)
    then parse_digits negative 16 s
    else parse_digits negative 10 (c ∷ x ∷ s)

abbrev pub parse_signed : Text → Number
parse_signed [] = nan
parse_signed (c ∷ s) =
    if c == 45
    then parse_unsigned true s
    else if c == 43
    then parse_unsigned false s
    else parse_unsigned false (c ∷ s)

unfoldable pub parse_int_text : Text → Number
parse_int_text s = parse_signed (trim_start s)
