-- ===== src/Base/Splits.antt =====
-- Texts cut at a character.
use Prim.Native.Nat.{ℕ}
use mathlib.Core.Path.{◌≡◌, refl, ap, ◌∙◌}
use mathlib.Core.Logic.{◌≢◌, inl, inr}
use mathlib.Core.Bool.{Bool, true, false}
use mathlib.Core.List.{List, [], ◌∷◌, ◌++◌}
use native.Mathlib.Omega.{arith}
use ribs.Base.Tests.{==_ne, ==_self, ◌==◌, if◌then◌else◌, Bool-cases}
use ribs.Base.Lists.{All, All-append}
use ribs.Base.Texts.{Text, join}

abbrev pub cons_char : ℕ → List Text → List Text
cons_char x [] = (x ∷ []) ∷ []
cons_char x (t ∷ ts) = (x ∷ t) ∷ ts

-- A text cut at every `c`.
abbrev pub split : ℕ → Text → List Text
split c [] = [] ∷ []
split c (x ∷ s) = let rest = split c s in if x == c then [] ∷ rest else cons_char x rest

abbrev pub IsFree : ℕ → Text → Type 0
IsFree c = All (λ x. x ≢ c)

pub split-IsFree : (c : ℕ) (t : Text) → IsFree c t → split c t ≡ t ∷ []
split-IsFree c [] f = refl
split-IsFree c (x ∷ t) (ne, f) = rw (==_ne x c ne, split-IsFree c t f)

split-append : (c : ℕ) (t s : Text) → IsFree c t → split c (t ++ c ∷ s) ≡ t ∷ split c s
split-append c [] s f = rw (==_self c)
split-append c (x ∷ t) s (ne, f) = rw (==_ne x c ne, split-append c t s f)

-- Cutting takes joining back, if no part has the separator.
pub split-join :
    (c : ℕ) (t : Text) (ts : List Text)
    → All (IsFree c) (t ∷ ts)
    → split c (join c (t ∷ ts)) ≡ t ∷ ts
split-join c t [] (f, a) = split-IsFree c t f
split-join c t (u ∷ ts) (f, a) =
    split-append c t (join c (u ∷ ts)) f ∙ ap (λ us. t ∷ us) (split-join c u ts a)

pub IsFree-join : (c d : ℕ) (ts : List Text) → d ≢ c → All (IsFree c) ts → IsFree c (join d ts)
IsFree-join c d [] ne a = tt
IsFree-join c d (t ∷ []) ne (f, a) = f
IsFree-join c d (t ∷ u ∷ ts) ne (f, a) =
    All-append (λ x. x ≢ c) t (d ∷ join d (u ∷ ts)) f (ne, IsFree-join c d (u ∷ ts) ne a)

abbrev pub is_free : ℕ → Text → Bool
is_free c [] = true
is_free c (x ∷ t) = let rest = is_free c t in if x == c then false else rest

pub is_free-IsFree : (c : ℕ) (t : Text) → is_free c t ≡ true → IsFree c t
is_free-IsFree c [] e = tt
is_free-IsFree c (x ∷ t) e = elim (Bool-cases (x == c)) [
  | inl same ↦ absurd (ground (arith, rw same at e))
  | inr ne ↦ (λ same. absurd (ground arith), is_free-IsFree c t (rw ne at e))
]
