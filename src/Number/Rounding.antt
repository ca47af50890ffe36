-- ===== src/Number/Rounding.antt =====
-- Rounding to the nearest double, ties to even, on magnitudes counted in units of 2 ^ -1074.
use mathlib.Core.Path.{subst}
use native.Mathlib.Decide.{ℕ_discrete, dec_le}
use native.Mathlib.Nat.{
  div-add-mod', le_of_mul-le-mul_right, lt_of_le_of_lt, le_trans, le_of_eq, mul-le-mul_right,
  mul-le-mul, pow-le-pow_right, mul_assoc, mul_comm, mul-div_cancel, mul-mod_left, pow-suc,
  mul-lt-mul_of_pos_right, one-le-pow, mul-pos, le-div_iff_mul-le, pow-zero, add-zero, add-suc,
}
use ribs.Base.{
  ℕ, zero, suc, ◌+◌, ◌-◌, ◌*◌, ◌/◌, ◌%◌, ◌^◌, ◌≤◌, ◌<◌, ◌≡◌, refl, ap, ◌&&◌, ◌||◌, arith, ltb, ◌==◌,
  if◌then◌else◌,
}

-- The magnitude of 1, and the number of significands.
unfoldable pub unit : ℕ
unit = 2 ^ 1074

abbrev pub significands : ℕ
significands = 2 ^ 53

-- The number of low bits that a magnitude `n / d` has too many: the least `s` with
-- `n / (d * 2 ^ s) < 2 ^ 53`. The fuel reaches past the largest double.
excess : ℕ → ℕ → ℕ → ℕ
excess zero n d = 0
excess (suc f) n d =
    let rest = suc (excess f n (d * 2)) in if ltb n (d * significands) then 0 else rest

nearest : ℕ → ℕ → ℕ
nearest n d =
    let q = n / d in
    let r = n % d in if ltb d (2 * r) || (d == 2 * r && 1 == q % 2) then q + 1 else q

unfoldable pub round_ratio : ℕ → ℕ → ℕ
unfolding excess nearest
round_ratio n d = let step = 2 ^ excess 2100 n d in nearest n (d * step) * step

nearest_exact : (q d : ℕ) → 0 < d → nearest (q * d) d ≡ q
unfolding nearest
nearest_exact q d h = rw (mul-div_cancel q h, mul-mod_left q d) (ground arith)

excess-le : (f j n d : ℕ) → n < d * 2 ^ j * significands → excess f n d ≤ j
unfolding excess
excess-le zero j n d h = omega arith
excess-le (suc f) zero n d h = ground arith
excess-le (suc f) (suc j) n d h =
    let less : n < d * 2 * 2 ^ j * significands =
      rw (mul_assoc d 2 (2 ^ j), mul_comm 2 (2 ^ j), ← pow-suc 2 j) h in
    ground (arith, excess-le f j n (d * 2) less)

pub pow-add : (b s t : ℕ) → b ^ (s + t) ≡ b ^ s * b ^ t
pow-add b s zero = rw (pow-zero, add-zero s) (omega arith)
pow-add b s (suc t) =
    rw (add-suc s t, pow-suc b (s + t), pow-suc b t, pow-add b s t) (mul_assoc (b ^ s) (b ^ t) b)

pub pow-pos : (s : ℕ) → 0 < 2 ^ s
pow-pos s = one-le-pow s 2 (omega arith)

nearest-scaled :
    (m s t d : ℕ) → 0 < d → nearest (m * 2 ^ (s + t) * d) (d * 2 ^ s) * 2 ^ s ≡ m * 2 ^ (s + t)
nearest-scaled m s t d h =
    let split : m * 2 ^ (s + t) * d ≡ m * 2 ^ t * (d * 2 ^ s) = rw pow-add (omega arith) in
    rw (split, nearest_exact (m * 2 ^ t) (d * 2 ^ s) (mul-pos h (pow-pos s)), pow-add) (omega arith)

fits : (m j d : ℕ) → m < significands → 0 < d → m * 2 ^ j * d < d * 2 ^ j * significands
fits m j d hm hd =
    let less : m * (2 ^ j * d) < significands * (2 ^ j * d) =
      mul-lt-mul_of_pos_right hm (mul-pos (pow-pos j) hd) in
    omega arith

-- A magnitude of at most 53 significant bits is not changed.
pub round_ratio-exact :
    (m j d : ℕ) → m < significands → 0 < d → round_ratio (m * 2 ^ j * d) d ≡ m * 2 ^ j
unfolding round_ratio
round_ratio-exact m j d hm hd =
    let s = excess 2100 (m * 2 ^ j * d) d in
    let le : s ≤ j = excess-le 2100 j (m * 2 ^ j * d) d (fits m j d hm hd) in
    let e : s + (j - s) ≡ j = omega arith in
    subst (λ k. nearest (m * 2 ^ k * d) (d * 2 ^ s) * 2 ^ s ≡ m * 2 ^ k) e
      (nearest-scaled m s (j - s) d hd)

-- A ratio of whole magnitudes is not changed when it is a magnitude of at most 53 bits.
pub round_ratio-exact_of_eq :
    (n m j d : ℕ) → m < significands → 0 < d → n ≡ m * 2 ^ j * d → round_ratio n d ≡ m * 2 ^ j
round_ratio-exact_of_eq n m j d hm hd e = rw e (round_ratio-exact m j d hm hd)

-- The search for the excess stops as early as it can.
excess-least : (f s n d : ℕ) → excess f n d ≡ suc s → d * 2 ^ s * significands ≤ n
unfolding excess
excess-least zero s n d e = absurd (omega arith)
excess-least (suc f) zero n d e = ground arith
excess-least (suc f) (suc s) n d e =
    let shift : d * 2 ^ suc s ≡ d * 2 * 2 ^ s =
      rw (mul_assoc d 2 (2 ^ s), mul_comm 2 (2 ^ s), pow-suc 2 s) (omega arith) in
    rw shift (ground (arith, excess-least f s n (d * 2)))

nearest-le : (n d m : ℕ) → 0 < d → n ≤ m * d → nearest n d ≤ m
unfolding nearest
nearest-le n d m hd h =
    let parts : n / d * d + n % d ≡ n = div-add-mod' n d in
    let low : n / d * d ≤ m * d = omega arith in
    let quotient : n / d ≤ m = le_of_mul-le-mul_right low hd in
    elim (ℕ_discrete (n / d) m) [
      | yes e ↦
          let same : n / d * d ≡ m * d = ap (λ (q : ℕ). q * d) e in
          let whole : n % d ≡ 0 = omega arith in ground arith
      | no ne ↦ let less : n / d < m = omega arith in ground arith
    ]

le-nearest : (n d m : ℕ) → 0 < d → m * d ≤ n → m ≤ nearest n d
unfolding nearest
le-nearest n d m hd h = let low : m ≤ n / d = (le-div_iff_mul-le hd).1 h in ground arith

-- Rounding does not cross a magnitude of at most 53 bits.
pub round_ratio-le :
    (n m j d : ℕ) → m < significands → 0 < d → n ≤ m * 2 ^ j * d → round_ratio n d ≤ m * 2 ^ j
unfolding round_ratio
round_ratio-le n m j d hm hd h =
    let s = excess 2100 n d in
    let le : s ≤ j = excess-le 2100 j n d (lt_of_le_of_lt h (fits m j d hm hd)) in
    let e : s + (j - s) ≡ j = omega arith in
    let split : 2 ^ j ≡ 2 ^ s * 2 ^ (j - s) = rw (← pow-add 2 s (j - s), e) refl in
    let scaled : n ≤ m * 2 ^ (j - s) * (d * 2 ^ s) =
      le_trans h (le_of_eq (rw split (omega arith))) in
    let rounded : nearest n (d * 2 ^ s) ≤ m * 2 ^ (j - s) =
      nearest-le n (d * 2 ^ s) (m * 2 ^ (j - s)) (mul-pos hd (pow-pos s)) scaled in
    le_trans (mul-le-mul_right (2 ^ s) rounded) (le_of_eq (rw split (omega arith)))

le-round_ratio_small :
    (n m j d s : ℕ) → 0 < d → s ≤ j → m * 2 ^ j * d ≤ n → m * 2 ^ j ≤ nearest n (d * 2 ^ s) * 2 ^ s
le-round_ratio_small n m j d s hd le h =
    let e : s + (j - s) ≡ j = omega arith in
    let split : 2 ^ j ≡ 2 ^ s * 2 ^ (j - s) = rw (← pow-add 2 s (j - s), e) refl in
    let scaled : m * 2 ^ (j - s) * (d * 2 ^ s) ≤ n =
      le_trans (le_of_eq (rw split (omega arith))) h in
    let rounded = le-nearest n (d * 2 ^ s) (m * 2 ^ (j - s)) (mul-pos hd (pow-pos s)) scaled in
    le_trans (le_of_eq (rw split (omega arith))) (mul-le-mul_right (2 ^ s) rounded)

-- A step above 2 ^ j means a magnitude above every one of 53 bits at 2 ^ j.
le-round_ratio_large :
    (n m j d s : ℕ)
    → m < significands
    → 0 < d
    → excess 2100 n d ≡ s
    → j < s
    → m * 2 ^ j ≤ nearest n (d * 2 ^ s) * 2 ^ s
le-round_ratio_large n m j d zero hm hd e lt = elim lt [ ]
le-round_ratio_large n m j d (suc s) hm hd e lt =
    let big = excess-least 2100 s n d e in
    let half : 2 ^ suc s ≡ 2 ^ s * 2 = pow-suc 2 s in
    let scaled : 2 ^ 52 * (d * 2 ^ suc s) ≤ n = rw half (omega arith) in
    let rounded : 2 ^ 52 ≤ nearest n (d * 2 ^ suc s) =
      le-nearest n (d * 2 ^ suc s) (2 ^ 52) hd' scaled in
    let up : 2 ^ 52 * 2 ^ suc s ≤ nearest n (d * 2 ^ suc s) * 2 ^ suc s =
      mul-le-mul_right (2 ^ suc s) rounded in
    let powers : m * 2 ^ j ≤ significands * 2 ^ s =
      mul-le-mul (let le : m ≤ significands = omega arith in le)
        (pow-le-pow_right (omega arith) (omega arith)) in
    omega arith
  where
    hd' : 0 < d * 2 ^ suc s
    hd' = mul-pos hd (pow-pos (suc s))

pub le-round_ratio :
    (n m j d : ℕ) → m < significands → 0 < d → m * 2 ^ j * d ≤ n → m * 2 ^ j ≤ round_ratio n d
unfolding round_ratio
le-round_ratio n m j d hm hd h = elim (dec_le (excess 2100 n d) j) [
  | yes le ↦ le-round_ratio_small n m j d (excess 2100 n d) hd le h
  | no gt ↦ le-round_ratio_large n m j d (excess 2100 n d) hm hd refl (omega arith)
]
