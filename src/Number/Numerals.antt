-- ===== src/Number/Numerals.antt =====
-- The numeral of a whole number: its characters, and `parseInt` of it.
use mathlib.Core.List.{reverse, reverse-append}
use ribs.Base.{
  All-reverse, ℕ, zero, suc, ◌+◌, ◌-◌, ◌*◌, ◌/◌, ◌≤◌, ◌<◌, ◌≡◌, ◌≢◌, refl, IsFree, ap, ◌∙◌, true,
  false, List, [], ◌∷◌, ◌++◌, map, All, Text, arith, decimal, digits_rev, inl, inr, Bool-cases, ltb,
  ◌==◌, lt→ltb, le→leb, not-leb, ==_ne, trim_start, is_space,
}
use ribs.Number.Rounding.{unit, significands, round_ratio}
use ribs.Number.Defs.{pack, of_ℕ}
use ribs.Number.Exact.{whole, of_ℕ-whole}
use ribs.Number.Parse.{
  digit, digits_prefix, value, parse_int_text, parse_unsigned, parse_digits, number_of,
}

abbrev pub IsDigit : ℕ → Type 0
IsDigit c = (48 ≤ c) × (c ≤ 57)

-- The number that digits stand for, the last one first.
abbrev rev_value : Text → ℕ
rev_value [] = 0
rev_value (c ∷ cs) = c - 48 + 10 * rev_value cs

digits_rev-value :
    (f n : ℕ) → n < f → (rev_value (digits_rev f n) ≡ n) × All IsDigit (digits_rev f n)
unfolding digits_rev
digits_rev-value zero n h = absurd (omega arith)
digits_rev-value (suc f) n h = elim (Bool-cases (ltb n 10)) [
  | inl e ↦ rw (e, digits_rev) (omega arith, ((omega arith, ground arith), tt))
  | inr e ↦
      let (v, a) = digits_rev-value f (n / 10) (ground arith) in
      rw (e, digits_rev) (omega arith, ((omega arith, omega arith), a))
]

-- A numeral has digits only.
pub All-decimal : (n : ℕ) → All IsDigit (decimal n)
unfolding decimal
All-decimal n = All-reverse IsDigit _ (digits_rev-value (suc n) n (omega arith)).1

digit-IsDigit : (c : ℕ) → IsDigit c → digit c ≡ c - 48
digit-IsDigit c (l, h) = rw (le→leb 48 c l, le→leb c 57 h)

abbrev from_code : ℕ → ℕ
from_code c = c - 48

digits_prefix-All : (s : Text) → All IsDigit s → digits_prefix 10 s ≡ map from_code s
digits_prefix-All [] a = refl
digits_prefix-All (c ∷ s) (h, a) =
    let low : c - 48 < 10 = omega arith in
    rw (digit-IsDigit c h, lt→ltb (c - 48) 10 low)
      (ap (λ ds. (c - 48) ∷ ds) (digits_prefix-All s a))

value-append :
    (acc : ℕ) (xs : List ℕ) (d : ℕ) → value 10 acc (xs ++ d ∷ []) ≡ value 10 acc xs * 10 + d
value-append acc [] d = refl
value-append acc (x ∷ xs) d = value-append (acc * 10 + x) xs d

map-append_one :
    (xs : Text) (c : ℕ) → map from_code (xs ++ c ∷ []) ≡ map from_code xs ++ from_code c ∷ []
map-append_one [] c = refl
map-append_one (x ∷ xs) c = ap (λ ds. from_code x ∷ ds) (map-append_one xs c)

value-reverse : (cs : Text) → value 10 0 (map from_code (reverse cs)) ≡ rev_value cs
value-reverse [] = refl
value-reverse (c ∷ cs) =
    rw
      (
        reverse-append (c ∷ []) cs,
        map-append_one (reverse cs) c,
        value-append 0 (map from_code (reverse cs)) (from_code c),
        value-reverse cs,
      )
      (omega arith)

pub digits-avoid : (c : ℕ) (t : Text) → 57 < c → All IsDigit t → IsFree c t
digits-avoid c [] h a = tt
digits-avoid c (x ∷ t) h ((l, u), a) = (λ e. absurd (omega arith), digits-avoid c t h a)

pub digits-IsFree : (c : ℕ) (t : Text) → c < 48 → All IsDigit t → IsFree c t
digits-IsFree c [] h a = tt
digits-IsFree c (x ∷ t) h ((l, u), a) = (λ e. absurd (omega arith), digits-IsFree c t h a)

value-decimal : (n : ℕ) → value 10 0 (map from_code (decimal n)) ≡ n
unfolding decimal
value-decimal n =
    value-reverse (digits_rev (suc n) n) ∙ (digits_rev-value (suc n) n (omega arith)).0

decimal-zero : decimal 0 ≡ 48 ∷ []
unfolding decimal
decimal-zero = refl

pub decimal-ne-nil : (n : ℕ) → decimal n ≢ []
decimal-ne-nil zero e = cc (decimal-zero)
decimal-ne-nil (suc n) e =
    let v = value-decimal (suc n) in absurd (let w = rw e at v in omega arith)

is_space-IsDigit : (c : ℕ) → IsDigit c → is_space c ≡ false
is_space-IsDigit c h =
    rw (==_ne c 32 (omega arith), not-leb c 13 (omega arith), le→leb 9 c (omega arith))

trim_start-IsDigit : (c : ℕ) (s : Text) → IsDigit c → trim_start (c ∷ s) ≡ c ∷ s
trim_start-IsDigit c s h =
    ap (λ b. elim b as (λ x. Text) [ true ↦ trim_start s | false ↦ c ∷ s ]) (is_space-IsDigit c h)

pack-whole_number : (n : ℕ) → n < significands → pack false (round_ratio (n * unit) 1) ≡ whole n
unfolding of_ℕ
pack-whole_number n h = of_ℕ-whole n h

parse_digits-eq :
    (c : ℕ) (s : Text) {n : ℕ}
    → All IsDigit (c ∷ s)
    → value 10 0 (map from_code (c ∷ s)) ≡ n
    → n < significands
    → parse_digits false 10 (c ∷ s) ≡ whole n
parse_digits-eq c s {n} a v h =
    ap (number_of false 10) (digits_prefix-All (c ∷ s) a)
    ∙ ap (λ (k : ℕ). pack false (round_ratio (k * unit) 1)) v
    ∙ pack-whole_number n h

parse_unsigned-eq :
    (c : ℕ) (s : Text)
    → All IsDigit (c ∷ s)
    → parse_unsigned false (c ∷ s) ≡ parse_digits false 10 (c ∷ s)
parse_unsigned-eq c [] a = refl
parse_unsigned-eq c (x ∷ s) (h, (hx, a)) = elim (Bool-cases (c == 48)) [
  | inl e ↦ rw (e, ==_ne x 120 (omega arith), ==_ne x 88 (omega arith))
  | inr e ↦ rw e
]

parse-All :
    (s : Text) {n : ℕ}
    → s ≢ []
    → All IsDigit s
    → value 10 0 (map from_code s) ≡ n
    → n < significands
    → parse_int_text s ≡ whole n
unfolding parse_int_text
parse-All [] ne a v h = absurd (ne refl)
parse-All (c ∷ s) ne a v h =
    rw
      (
        trim_start-IsDigit c s a.0,
        ==_ne c 45 (omega arith),
        ==_ne c 43 (omega arith),
        parse_unsigned-eq c s a,
      )
      (parse_digits-eq c s a v h)

-- `parseInt` of a number's own text.
pub parse_int_text-decimal : (n : ℕ) → n < significands → parse_int_text (decimal n) ≡ whole n
parse_int_text-decimal n h =
    parse-All (decimal n) (decimal-ne-nil n) (All-decimal n) (value-decimal n) h
