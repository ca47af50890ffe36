-- ===== src/Number/Bounds.antt =====
-- Bounds on magnitudes through the arithmetic: rounding does not lead past a bound of 53 bits.
use native.Mathlib.Nat.{lt_of_le_of_lt, mul-le-mul_right}
use ribs.Base.{
  ℕ, ◌+◌, ◌-◌, ◌*◌, ◌≤◌, ◌<◌, ◌≢◌, Bool, true, false, not, arith, ltb, lt→ltb, ltb→lt, inl, inr,
  Bool-cases, ◌==◌, if◌then◌else◌,
}
use ribs.Number.Rounding.{unit, significands, round_ratio, round_ratio-le}
use ribs.Number.Defs.{Number, nan, inf, fin, pack, huge, of_ℕ, add, sub, mul, round}
use ribs.Number.Exact.{whole, unit-pos}

-- A finite number of at most `m` units of 1.
abbrev pub IsWithin : ℕ → Number → Type 0
IsWithin m nan = ⊥
IsWithin m (inf s) = ⊥
IsWithin m (fin s k) = k ≤ m * unit

-- A magnitude that a double can have.
abbrev pub IsDouble : Number → Type 0
IsDouble nan = Unit
IsDouble (inf s) = Unit
IsDouble (fin s k) = k < huge

pack-IsDouble : (s : Bool) (k : ℕ) → IsDouble (pack s k)
unfolding pack
pack-IsDouble s k = elim (Bool-cases (ltb k huge)) [
  | inl e ↦ rw e (ltb→lt k huge e)
  | inr e ↦ rw e tt
]

pub of_ℕ-IsDouble : (n : ℕ) → IsDouble (of_ℕ n)
unfolding of_ℕ
of_ℕ-IsDouble n = pack-IsDouble false _

either-IsDouble :
    (b : Bool) (x y : Number) → IsDouble x → IsDouble y → IsDouble (if b then x else y)
either-IsDouble true x y h k = h
either-IsDouble false x y h k = k

-- A product is rounded to a double.
pub mul-IsDouble : (x y : Number) → IsDouble (mul x y)
unfolding mul
mul-IsDouble nan y = tt
mul-IsDouble (inf s) nan = tt
mul-IsDouble (inf s) (inf t) = tt
mul-IsDouble (inf s) (fin t b) = either-IsDouble (b == 0) _ _ tt tt
mul-IsDouble (fin s a) nan = tt
mul-IsDouble (fin s a) (inf t) = either-IsDouble (a == 0) _ _ tt tt
mul-IsDouble (fin s a) (fin t b) = pack-IsDouble _ _

significands-lt-huge : significands * unit < huge
unfolding huge unit
significands-lt-huge = omega arith

module _ (m : ℕ) (hm : m < significands) where
  bound-lt-huge : m * unit < huge
  bound-lt-huge = lt_of_le_of_lt (mul-le-mul_right unit (omega arith)) significands-lt-huge

  pub IsWithin-IsDouble : (x : Number) → IsWithin m x → IsDouble x × (x ≢ inf false)
  IsWithin-IsDouble nan h = elim h [ ]
  IsWithin-IsDouble (inf s) h = elim h [ ]
  IsWithin-IsDouble (fin s k) h = (lt_of_le_of_lt h bound-lt-huge, λ e. cc)

  pack-IsWithin : (s : Bool) (k : ℕ) → k ≤ m * unit → IsWithin m (pack s k)
  unfolding pack
  pack-IsWithin s k h = rw (lt→ltb k huge (lt_of_le_of_lt h bound-lt-huge)) h

  round_ratio-within : (n d : ℕ) → 0 < d → n ≤ m * unit * d → round_ratio n d ≤ m * unit
  unfolding unit
  round_ratio-within n d hd h = round_ratio-le n m 1074 d hm hd h

  rounded-IsWithin :
      (s : Bool) (n d : ℕ) → 0 < d → n ≤ m * unit * d → IsWithin m (pack s (round_ratio n d))
  rounded-IsWithin s n d hd h = pack-IsWithin s (round_ratio n d) (round_ratio-within n d hd h)

  opposite-IsWithin :
      (s t : Bool) (a b : ℕ)
      → a ≤ m * unit
      → b ≤ m * unit
      → IsWithin m (
          if a == b
          then fin false 0
          else if ltb b a
          then pack s (round_ratio (a - b) 1)
          else pack t (round_ratio (b - a) 1))
  opposite-IsWithin s t a b ha hb = elim (Bool-cases (a == b)) [
    | inl e ↦ rw e (omega arith)
    | inr e ↦ elim (Bool-cases (ltb b a)) [
      | inl f ↦ rw (e, f) (rounded-IsWithin s (a - b) 1 (omega arith) (omega arith))
      | inr f ↦ rw (e, f) (rounded-IsWithin t (b - a) 1 (omega arith) (omega arith))
    ]
  ]

  -- A sum is within `m` if the magnitudes together are, a difference of signs if each of them is.
  add-IsWithin : (a b : ℕ) (s : Bool) → a + b ≤ m * unit → IsWithin m (add (fin s a) (fin s b))
  unfolding add
  add-IsWithin a b true h = rounded-IsWithin true (a + b) 1 (omega arith) (omega arith)
  add-IsWithin a b false h = rounded-IsWithin false (a + b) 1 (omega arith) (omega arith)

  add-IsWithin_opposite :
      (a b : ℕ) (s : Bool)
      → a ≤ m * unit
      → b ≤ m * unit
      → IsWithin m (add (fin s a) (fin (not s) b))
  unfolding add
  add-IsWithin_opposite a b true ha hb = opposite-IsWithin true false a b ha hb
  add-IsWithin_opposite a b false ha hb = opposite-IsWithin false true a b ha hb

  pub add-IsWithin_each :
      (a b : ℕ) (s t : Bool) → a + b ≤ m * unit → IsWithin m (add (fin s a) (fin t b))
  add-IsWithin_each a b true true h = add-IsWithin a b true h
  add-IsWithin_each a b false false h = add-IsWithin a b false h
  add-IsWithin_each a b true false h = add-IsWithin_opposite a b true (omega arith) (omega arith)
  add-IsWithin_each a b false true h = add-IsWithin_opposite a b false (omega arith) (omega arith)

  -- The difference of two numbers that are not negative.
  pub sub-IsWithin : (a b : ℕ) → a ≤ m → b ≤ m → IsWithin m (sub (whole a) (whole b))
  unfolding sub
  sub-IsWithin a b ha hb =
      add-IsWithin_opposite (a * unit) (b * unit) false (mul-le-mul_right unit ha)
        (mul-le-mul_right unit hb)

  pub mul-IsWithin :
      (a b : ℕ) (s t : Bool) → a * b ≤ m * unit * unit → IsWithin m (mul (fin s a) (fin t b))
  unfolding mul
  mul-IsWithin a b s t h = rounded-IsWithin _ (a * b) unit unit-pos h

  pub round-IsWithin : (x : Number) → IsWithin m x → IsWithin m (round x)
  unfolding round unit
  round-IsWithin nan h = elim h [ ]
  round-IsWithin (inf s) h = elim h [ ]
  round-IsWithin (fin true k) h = omega arith
  round-IsWithin (fin false k) h = omega arith
