-- ===== src/Fmt/Bytes.antt =====
-- `formatBytesBinary` and `formatBitsBinary` on whole numbers.
use ribs.Base.{
  ℕ, zero, suc, ◌+◌, ◌*◌, ◌/◌, ◌^◌, ◌≤◌, ◌<◌, ◌≡◌, ap, ◌∙◌, false, some, List, ◌++◌, arith, lt→ltb,
  Text, codes, decimal,
}
use ribs.Number.Rounding.{significands}
use ribs.Number.Defs.{fin}
use ribs.Number.Exact.{whole, of_ℕ-whole, mul-whole}
use ribs.Number.Print.{point_text}
use ribs.Fmt.Units.{
  scaled_text, format_bytes_binary, format_bits_binary, unit_name, byte_units, bit_units,
}
use ribs.Fmt.Scaling.{step, scale-whole, to_fixed-step, parse_int-whole, or_zero-whole}

-- A size of `n` shown in the unit 1024 ^ l: whole bytes, or hundredths of the unit, halves up.
abbrev pub size_text : List Text → ℕ → ℕ → Text
size_text units n zero = decimal n ++ (codes " " ++ unit_name units zero)
size_text units n (suc l) =
    let d = 1024 ^ suc l in
    point_text 2 ((2 * (n * 100) + d) / (2 * d)) ++ (codes " " ++ unit_name units (suc l))

scaled_text-step :
    (n l : ℕ)
    → n < significands
    → l < 6
    → (0 < l → 1024 ^ l ≤ n)
    → n < 1024 ^ suc l
    → (units : List Text) → scaled_text 2 units (fin false (n * step l), l) ≡ size_text units n l
scaled_text-step n zero hn hl low high units =
    let e : (2 * (n * 10 ^ 0) + 1024 ^ 0) / (2 * 1024 ^ 0) ≡ n = omega arith in
    ap (λ (t : Text). t ++ (codes " " ++ unit_name units 0))
      (to_fixed-step n zero hn hl low high 0 ∙ ap decimal e)
scaled_text-step n (suc l) hn hl low high units = rw (lt→ltb 0 (suc l) (omega arith)) (
    ap (λ (t : Text). t ++ (codes " " ++ unit_name units (suc l)))
      (to_fixed-step n (suc l) hn hl low high 2))

-- A whole number of bytes below 2 ^ 53 is shown in the largest unit that it reaches, as the exact
-- quotient: with no decimals below 1024, and else in hundredths, halves up.
pub format_bytes_binary-whole :
    (n l : ℕ)
    → n < significands
    → l < 6
    → (0 < l → 1024 ^ l ≤ n)
    → n < 1024 ^ suc l
    → format_bytes_binary (whole n) ≡ some (size_text byte_units n l)
unfolding format_bytes_binary
format_bytes_binary-whole n l hn hl low high =
    rw
      (
        parse_int-whole n hn,
        or_zero-whole n,
        of_ℕ-whole 1024 (omega arith),
        scale-whole n l hn hl low high,
      )
      (ap some (scaled_text-step n l hn hl low high byte_units))

-- A rate of whole bytes is shown as eight times as many bits, in the same way.
format_bits_binary-whole :
    (n l : ℕ)
    → n * 8 < significands
    → l < 6
    → (0 < l → 1024 ^ l ≤ n * 8)
    → n * 8 < 1024 ^ suc l
    → format_bits_binary (whole n) ≡ some (size_text bit_units (n * 8) l)
unfolding format_bits_binary
format_bits_binary-whole n l hn hl low high =
    rw
      (
        of_ℕ-whole 8 (omega arith),
        mul-whole n 8 hn,
        parse_int-whole (n * 8) hn,
        or_zero-whole (n * 8),
        of_ℕ-whole 1024 (omega arith),
        scale-whole (n * 8) l hn hl low high,
      )
      (ap some (scaled_text-step (n * 8) l hn hl low high bit_units))
