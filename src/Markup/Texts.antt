-- ===== src/Markup/Texts.antt =====
-- The texts of formatters in pieces of the pages.
use ribs.Base.{ℕ, ◌+◌, ◌*◌, ◌≤◌, Bool, Option, none, some, List, [], ◌∷◌, All, All-append, arith}
use ribs.Number.Defs.{Number, of_ℕ}
use ribs.Number.Exact.{whole, of_ℕ-whole, add-whole, mul-whole}
use ribs.Fmt.Dates.{Dates, reference_time, epoch_to_date, format_timestamp}
use ribs.Fmt.Loops.{Returns, Returns-map}
use ribs.Markup.Html.{Html, ◌&◌, optional, each, texts}

-- Every text of a formatter is there.
abbrev pub Renders : Html → Type 0
Renders h = All Returns (texts h)

pub &-Renders : (a b : Html) → Renders a → Renders b → Renders (a & b)
&-Renders a b h k = All-append Returns (texts a) (texts b) h k

pub optional-Renders {ℓ} :
    {A : Type ℓ} (f : A → Html) (o : Option A) → ((a : A) → Renders (f a)) → Renders (optional f o)
optional-Renders f none h = tt
optional-Renders f (some a) h = h a

pub each-Renders {ℓ} :
    {A : Type ℓ} (f : A → Html) (xs : List A) → All (λ a. Renders (f a)) xs → Renders (each f xs)
each-Renders f [] h = tt
each-Renders f (x ∷ xs) (h, hs) = &-Renders (f x) (each f xs) h (each-Renders f xs hs)

-- The last time, in milliseconds, that a date of the language has.
abbrev pub last_time : ℕ
last_time = 8640000000000000

-- `toISOString` returns for every whole time that a date has.
abbrev pub HasTimes : Dates → Type 0
HasTimes dates =
    (t : ℕ) → t ≤ last_time → Returns (dates.to_iso_string (dates.time_value (whole t)))

-- A second that a date has, and an epoch of half a minute.
abbrev pub IsSecond : ℕ → Type 0
IsSecond n = n * 1000 ≤ last_time

abbrev pub IsEpoch : ℕ → Type 0
IsEpoch n = reference_time + n * 30 * 1000 ≤ last_time

module _ (dates : Dates) (times : HasTimes dates) where
  pub epoch_to_date-Returns :
      (n : ℕ) → IsEpoch n → Returns (epoch_to_date dates (whole n) (of_ℕ reference_time))
  unfolding epoch_to_date
  epoch_to_date-Returns n h =
      rw
        (
          of_ℕ-whole 30 (omega arith),
          of_ℕ-whole 1000 (omega arith),
          of_ℕ-whole reference_time (omega arith),
          mul-whole n 30 (omega arith),
          mul-whole (n * 30) 1000 (omega arith),
          add-whole reference_time (n * 30 * 1000) (omega arith),
        )
        (Returns-map _ _ (times (reference_time + n * 30 * 1000) h))

  pub format_timestamp-Returns :
      (now : Number) (n : ℕ) (date_only : Bool)
      → IsSecond n
      → Returns (format_timestamp dates now (whole n) date_only)
  unfolding format_timestamp
  format_timestamp-Returns now n date_only h =
      rw (of_ℕ-whole 1000 (omega arith), mul-whole n 1000 (omega arith))
        (Returns-map _ _ (times (n * 1000) h))
