-- ===== src/Fmt/Prices.antt =====
-- `formatFil` of helpers/fmt.js.
use ribs.Base.{ℕ, zero, suc, ◌+◌, ◌≤◌, ◌≡◌, refl, ◌⊎◌, inl, inr, true, false, arith, Bool-cases}
use ribs.Number.Defs.{Number, of_ℕ, div, ge, equal}
use ribs.Fmt.Units.{fil_loop, fil_text, format_fil}

-- `n` divided by 1000 `k` times.
abbrev pub thousandths : ℕ → Number → Number
thousandths zero n = n
thousandths (suc k) n = thousandths k (div n (of_ℕ 1000))

-- The first `k` of these quotients are at least 1000.
abbrev pub IsLarge : ℕ → Number → Type 0
IsLarge zero n = Unit {0}
IsLarge (suc k) n = (ge n (of_ℕ 1000) ≡ true) × IsLarge k (div n (of_ℕ 1000))

-- The loop stops at a quotient that is not, or after the last unit.
abbrev pub IsLast : ℕ → ℕ → Number → Type 0
IsLast left k n = (k ≡ left) ⊎ (ge (thousandths k n) (of_ℕ 1000) ≡ false)

IsLast-suc :
    (left k : ℕ) (n : Number) → IsLast left k (div n (of_ℕ 1000)) → IsLast (suc left) (suc k) n
IsLast-suc left k n (inl e) = inl (omega arith)
IsLast-suc left k n (inr e) = inr e

fil_loop-ends :
    (left : ℕ) (n : Number) (l : ℕ)
    → (k : ℕ) × (k ≤ left)
      × (fil_loop left n l ≡ (thousandths k n, l + k))
      × IsLarge k n
      × IsLast left k n
unfolding fil_loop
fil_loop-ends zero n l = let e : l + 0 ≡ l = omega arith in (0, omega arith, rw e, tt, inl refl)
fil_loop-ends (suc left) n l = elim (Bool-cases (ge n (of_ℕ 1000))) [
  | inl e ↦
      let (k, le, loop, large, last) = fil_loop-ends left (div n (of_ℕ 1000)) (l + 1) in
      let shift : l + 1 + k ≡ l + suc k = omega arith in
      (suc k, omega arith, rw (e, loop, shift), (e, large), IsLast-suc left k n last)
  | inr e ↦ let same : l + 0 ≡ l = omega arith in (0, omega arith, rw (e, same), tt, inr e)
]

-- A price that is not zero is shown in one of the seven units, the first in which it is below 1000, or
-- the last one: divided by 1000 for each unit that it passes.
pub format_fil-unit :
    (n : Number)
    → equal n (of_ℕ 0) ≡ false
    → (k : ℕ) × (k ≤ 6)
      × (format_fil n ≡ fil_text (thousandths k n, k))
      × IsLarge k n
      × IsLast 6 k n
unfolding format_fil
format_fil-unit n h =
    let (k, le, loop, large, last) = fil_loop-ends 6 n 0 in
    let e : 0 + k ≡ k = omega arith in (k, le, rw (h, loop, e), large, last)
