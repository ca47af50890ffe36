-- ===== src/Fmt/Loops.antt =====
-- When the scaling loops of helpers/fmt.js end.
use mathlib.Core.Option
use native.Mathlib.Decide.{dec_lt}
use native.Mathlib.Nat.{
  mul-pos, mul-le-mul_right, mul-le-mul_left, pow-le-pow_right, lt_of_le_of_lt, div-mul-le_self,
}
use ribs.Base.{
  ℕ, zero, suc, ◌+◌, ◌-◌, ◌*◌, ◌/◌, ◌%◌, ◌^◌, ◌≤◌, ◌<◌, ◌≡◌, ◌≢◌, refl, Bool, if◌then◌else◌, true,
  false, Option, none, some, arith, inl, inr, ◌⊎◌, leb, lt→ltb, ==_ne, Bool-cases, leb→le,
}
use ribs.Number.Rounding.{unit, round_ratio, round_ratio-le, pow-add}
use ribs.Number.Defs.{Number, nan, inf, fin, pack, huge, ge, div, mul, or_zero, of_ℕ}
use ribs.Number.Bounds.{IsDouble, mul-IsDouble}
use ribs.Number.Print.{parse_int}
use ribs.Number.Exact.{whole, of_ℕ-whole, unit-pos}
use ribs.Fmt.Units.{scale_loop, format_num, format_bytes_binary, format_bits_binary, format_num6}

abbrev pub Returns {ℓ} : {A : Type ℓ} → Option A → Type 0
Returns none = ⊥
Returns (some a) = Unit

ge-fin : (k b : ℕ) → ge (fin false k) (whole b) ≡ leb (b * unit) k
unfolding ge
ge-fin k b = ground arith

pow-lt-huge : (i : ℕ) → i < 2098 → 2 ^ i < huge
unfolding huge
pow-lt-huge i h =
    lt_of_le_of_lt {m = 2 ^ 2097} (pow-le-pow_right (omega arith) {j = 2097} (omega arith))
      (omega arith)

module _ (b : ℕ) (hb : 512 < b) where
  -- Dividing takes at least nine bits off the bound on the magnitude.
  quotient-le : (k i : ℕ) → k ≤ 2 ^ (i + 9) → round_ratio (k * unit) (b * unit) ≤ 2 ^ i
  quotient-le k i h =
      let k_le : k ≤ 2 ^ i * 512 = rw (← pow-add 2 i 9) h in
      let b_le : 2 ^ i * 512 * unit ≤ 2 ^ i * b * unit =
        mul-le-mul_right unit (mul-le-mul_left (2 ^ i) (omega arith)) in
      let scaled : k * unit ≤ 2 ^ i * 512 * unit = mul-le-mul_right unit k_le in
      let one : 1 * 2 ^ i ≡ 2 ^ i = omega arith in
      let bound : k * unit ≤ 1 * 2 ^ i * (b * unit) = omega arith in
      rw one at (
        round_ratio-le (k * unit) 1 i (b * unit) (omega arith) (mul-pos (omega arith) unit-pos)
          bound)

  div-fin :
      (k i : ℕ)
      → k ≤ 2 ^ (i + 9)
      → i < 2098
      → div (fin false k) (whole b) ≡ fin false (round_ratio (k * unit) (b * unit))
  unfolding div pack
  div-fin k i h hi =
      let pos : 0 < b * unit = mul-pos (omega arith) unit-pos in
      let small : round_ratio (k * unit) (b * unit) < huge =
        lt_of_le_of_lt (quotient-le k i h) (pow-lt-huge i hi) in
      rw (==_ne (b * unit) 0 (omega arith), lt→ltb (round_ratio (k * unit) (b * unit)) huge small)

  -- A round is only made on a magnitude above 512.
  bound-big : (k j : ℕ) → k ≤ 2 ^ j → b * unit ≤ k → 1083 < j
  unfolding unit
  bound-big k j hk hge = elim (dec_lt 1083 j) [
    | yes h ↦ h
    | no h ↦
        let low : 2 ^ j ≤ 2 ^ 1083 = pow-le-pow_right (omega arith) {j = 1083} (omega arith) in
        absurd (omega arith)
  ]

  scale-Returns :
      (f j k l : ℕ)
      → k ≤ 2 ^ j
      → j ≤ 2098
      → j ≤ 9 * f + 1083
      → Returns (scale_loop (suc f) (whole b) (fin false k) l)
  unfolding scale_loop
  scale-Returns zero j k l hk hj hf = elim (Bool-cases (leb (b * unit) k)) [
    | inl e ↦ absurd (let big = bound-big k j hk (leb→le (b * unit) k e) in omega arith)
    | inr e ↦ rw (ge-fin k b, e) tt
  ]
  scale-Returns (suc f) j k l hk hj hf = elim (Bool-cases (leb (b * unit) k)) [
    | inl e ↦
        let big = bound-big k j hk (leb→le (b * unit) k e) in
        let i : ℕ = j - 9 in
        let split : j ≡ i + 9 = omega arith in
        let hk' : k ≤ 2 ^ (i + 9) = rw (← split) hk in
        rw (ge-fin k b, e, div-fin k i hk' (omega arith))
          (scale-Returns f i (round_ratio (k * unit) (b * unit)) (l + 1) (quotient-le k i hk')
            (omega arith) (omega arith))
    | inr e ↦ rw (ge-fin k b, e) tt
  ]

  -- Every value but +Infinity leaves the loop.
  loop-Returns : (x : Number) → IsDouble x → x ≢ inf false → Returns (scale_loop 120 (whole b) x 0)
  unfolding scale_loop ge huge
  loop-Returns nan h ne = tt
  loop-Returns (inf true) h ne = tt
  loop-Returns (inf false) h ne = absurd (ne refl)
  loop-Returns (fin false k) h ne =
      scale-Returns 119 2098 k 0 (omega arith) (omega arith) (omega arith)
  loop-Returns (fin true k) h ne =
      let pos : 0 < b * unit = mul-pos (omega arith) unit-pos in
      rw (==_ne (k + b * unit) 0 (omega arith)) tt

pub Returns-map {ℓ κ} :
    {A : Type ℓ} {B : Type κ} (f : A → B) (o : Option A) → Returns o → Returns (Option.map f o)
Returns-map f none h = elim h [ ]
Returns-map f (some a) h = tt

abbrev pub IsFinite : Number → Type 0
IsFinite x = IsDouble x × (x ≢ inf false)

or_zero-IsFinite : (x : Number) → IsFinite x → IsFinite (or_zero x)
unfolding or_zero huge
or_zero-IsFinite nan h = (omega arith, λ e. cc)
or_zero-IsFinite (inf s) h = h
or_zero-IsFinite (fin s zero) h = (omega arith, λ e. cc)
or_zero-IsFinite (fin s (suc k)) h = rw (==_ne (suc k) 0 (omega arith)) h

fin-IsFinite : (s : Bool) (k : ℕ) → k < huge → IsFinite (fin s k)
fin-IsFinite s k h = (h, λ e. cc)

if-IsFinite : (t : Bool) (x y : Number) → IsFinite x → IsFinite y → IsFinite (if t then x else y)
if-IsFinite true x y hx hy = hx
if-IsFinite false x y hx hy = hy

digit-lt-huge : (d : ℕ) → d % 10 * unit < huge
unfolding huge unit
digit-lt-huge d = omega arith

parse_int-IsFinite : (x : Number) → IsDouble x → IsFinite (parse_int x)
unfolding parse_int
parse_int-IsFinite nan h = (tt, λ e. cc)
parse_int-IsFinite (inf s) h = (tt, λ e. cc)
parse_int-IsFinite (fin s k) h =
    let whole_part : k / unit * unit < huge = lt_of_le_of_lt (div-mul-le_self k unit) h in
    let nought : 0 * unit < huge = omega arith in
    rw (of_ℕ-whole 0 (omega arith)) (
      if-IsFinite _ _ _ (fin-IsFinite false (0 * unit) nought) (
        if-IsFinite _ _ _ (fin-IsFinite s (k / unit * unit) whole_part)
          (fin-IsFinite s _ (digit-lt-huge _))))

-- `formatNum` returns on every double but +Infinity.
pub format_num-Returns :
    (x : Number) (digits : ℕ) → IsDouble x → x ≢ inf false → Returns (format_num x digits)
unfolding format_num
format_num-Returns x digits h ne =
    let (double, finite) = or_zero-IsFinite x (h, ne) in
    rw (of_ℕ-whole 1000 (omega arith))
      (Returns-map _ _ (loop-Returns 1000 (omega arith) (or_zero x) double finite))

-- On +Infinity the loop of `formatNum` goes on after any number of rounds.
pub scale_loop-inf : (f l : ℕ) → scale_loop f (of_ℕ 1000) (inf false) l ≡ none
unfolding scale_loop ge div
scale_loop-inf f l = rw (of_ℕ-whole 1000 (omega arith)) (never f l)
  where
    never : (f l : ℕ) → scale_loop f (whole 1000) (inf false) l ≡ none
    never zero l = refl
    never (suc f) l = never f (l + 1)

-- `formatBytesBinary` and `formatNum6` return on every double.
pub format_bytes_binary-Returns :
    (x : Number) → IsDouble x → Returns (format_bytes_binary x) × Returns (format_num6 x)
unfolding format_bytes_binary format_num6
format_bytes_binary-Returns x h =
    let (double, finite) = or_zero-IsFinite (parse_int x) (parse_int-IsFinite x h) in
    rw (of_ℕ-whole 1000 (omega arith), of_ℕ-whole 1024 (omega arith))
      (
        Returns-map _ _ (loop-Returns 1024 (omega arith) (or_zero (parse_int x)) double finite),
        Returns-map _ _ (loop-Returns 1000 (omega arith) (or_zero (parse_int x)) double finite),
      )

-- `formatBitsBinary` returns on every number: its product is a double.
pub format_bits_binary-Returns : (x : Number) → Returns (format_bits_binary x)
unfolding format_bits_binary
format_bits_binary-Returns x =
    let bits = mul x (of_ℕ 8) in
    let (double, finite) =
      or_zero-IsFinite (parse_int bits) (parse_int-IsFinite bits (mul-IsDouble x (of_ℕ 8))) in
    rw (of_ℕ-whole 1024 (omega arith))
      (Returns-map _ _ (loop-Returns 1024 (omega arith) (or_zero (parse_int bits)) double finite))

-- On every double, `formatBytesBinary` and `formatNum6` return, and so does `formatNum` unless it is
-- +Infinity.
pub formatters-Return :
    (x : Number) (digits : ℕ)
    → IsDouble x
    → Returns (format_bytes_binary x)
      × Returns (format_num6 x)
      × ((x ≡ inf false) ⊎ Returns (format_num x digits))
formatters-Return x digits h =
    let (bytes, num6) = format_bytes_binary-Returns x h in (bytes, num6, not_inf x h)
  where
    not_inf : (x : Number) → IsDouble x → (x ≡ inf false) ⊎ Returns (format_num x digits)
    not_inf nan h = inr (format_num-Returns nan digits h (λ e. cc))
    not_inf (inf true) h = inr (format_num-Returns (inf true) digits h (λ e. cc))
    not_inf (inf false) h = inl refl
    not_inf (fin s k) h = inr (format_num-Returns (fin s k) digits h (λ e. cc))
