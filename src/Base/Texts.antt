-- ===== src/Base/Texts.antt =====
-- JavaScript strings: lists of UTF-16 code units. Literals are ASCII, so a unit is a code point.
use Prim.Native.Nat.{ℕ, zero, suc, ◌+◌, ◌/◌, ◌%◌}
use Prim.Native.Char.{code}
use Prim.Native.String.{String}
use mathlib.Core.Bool.{Bool, true, false, ◌&&◌, ◌||◌}
use mathlib.Core.List.{List, [], ◌∷◌, ◌++◌, reverse}
use ribs.Base.Tests.{ltb, leb, ◌==◌}

abbrev pub Text : Type 0
Text = List ℕ

abbrev pub codes : String → Text
codes String.[] = []
codes (String.◌∷◌ c s) = code c ∷ codes s

-- `===` on strings.
abbrev pub text_eq : Text → Text → Bool
text_eq [] [] = true
text_eq [] (y ∷ ys) = false
text_eq (x ∷ xs) [] = false
text_eq (x ∷ xs) (y ∷ ys) =
    let rest = text_eq xs ys in elim (x == y) [ true ↦ rest | false ↦ false ]

-- White space among the ASCII characters, for `trim`.
abbrev pub is_space : ℕ → Bool
is_space c = c == 32 || (leb 9 c && leb c 13)

abbrev pub trim_start : Text → Text
trim_start [] = []
trim_start (c ∷ s) = let rest = trim_start s in elim (is_space c) [ true ↦ rest | false ↦ c ∷ s ]

abbrev pub trim : Text → Text
trim s = reverse (trim_start (reverse (trim_start s)))

-- The decimal digits of a number, least significant first, with enough fuel at `n + 1`.
unfoldable pub digits_rev : ℕ → ℕ → Text
digits_rev zero n = []
digits_rev (suc f) n =
    let rest = digits_rev f (n / 10) in
    elim (ltb n 10) [ true ↦ (48 + n) ∷ [] | false ↦ (48 + n % 10) ∷ rest ]

unfoldable pub decimal : ℕ → Text
unfolding digits_rev
decimal n = reverse (digits_rev (suc n) n)

-- `ts.join(c)` for a separator of one character.
abbrev pub join : ℕ → List Text → Text
join c [] = []
join c (t ∷ []) = t
join c (t ∷ u ∷ ts) = t ++ c ∷ join c (u ∷ ts)
