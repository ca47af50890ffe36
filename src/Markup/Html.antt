-- ===== src/Markup/Html.antt =====
-- Markup as JSX makes it, without classes, styles and handlers: the elements of HTML by their tags, the
-- cells of tables, and the links of react-router beside those of HTML. Where an element only sets off
-- some words of one text, as in the counts of the deals and in their times, the text has them.
use ribs.Base.{
  ℕ, ◌+◌, ◌≡◌, refl, Option, none, some, List, [], ◌∷◌, ◌++◌, map, Text, codes, All, All-append,
  All-mono, sym, ◌∙◌,
}
use ribs.Number.Defs.{Number}
use ribs.Number.Print.{to_text}

infixr 5 ◌&◌
pub data Html : Type 0 where
  -- `<></>`, null and false
  blank : Html
  text : Text → Html
  -- A text of formatters, none where one does not return or throws.
  formatted : Option Text → Html
  element : Text → Html → Html
  -- `<Link to={...}>` and `<a href={...}>`
  link : Text → Html → Html
  anchor : Text → Html → Html
  -- The filled part of a progress bar, with its width.
  bar : Text → Html
  table : Html → Html
  -- `<tr>`, and `<td>` or `<th>` with its `colSpan`
  row : Html → Html
  cell : ℕ → Html → Html
  ◌&◌ : Html → Html → Html

-- `condition && ...` of a value that may be missing.
abbrev pub optional {ℓ} : {A : Type ℓ} → (A → Html) → Option A → Html
optional f none = blank
optional f (some a) = f a

-- `items.map(...)`
abbrev pub each {ℓ} : {A : Type ℓ} → (A → Html) → List A → Html
each f [] = blank
each f (x ∷ xs) = f x & each f xs

abbrev pub cell_of : Text → Html
cell_of t = cell 1 (text t)

abbrev pub head_row : List Text → Html
head_row names = row (each cell_of names)

-- A width in percent.
abbrev pub percent : Number → Text
percent width = to_text width ++ codes "%"

-- An address with its text.
abbrev pub anchor_of : Text × Text → Html
anchor_of (address, caption) = anchor address (text caption)

-- The addresses of the links of react-router, in order.
abbrev pub links : Html → List Text
links blank = []
links (text t) = []
links (formatted t) = []
links (element tag h) = links h
links (link to h) = to ∷ links h
links (anchor address h) = links h
links (bar width) = []
links (table h) = links h
links (row h) = links h
links (cell span h) = links h
links (a & b) = links a ++ links b

-- The columns that the cells of a row take.
abbrev pub columns : Html → ℕ
columns blank = 0
columns (text t) = 0
columns (formatted t) = 0
columns (element tag h) = 0
columns (link to h) = 0
columns (anchor address h) = 0
columns (bar width) = 0
columns (table h) = 0
columns (row h) = 0
columns (cell span h) = span
columns (a & b) = columns a + columns b

-- The columns of each row of a table, also those in its head and its body.
abbrev pub row_widths : Html → List ℕ
row_widths blank = []
row_widths (text t) = []
row_widths (formatted t) = []
row_widths (element tag h) = row_widths h
row_widths (link to h) = []
row_widths (anchor address h) = []
row_widths (bar width) = []
row_widths (table h) = []
row_widths (row h) = columns h ∷ []
row_widths (cell span h) = []
row_widths (a & b) = row_widths a ++ row_widths b

-- The tables, each by the columns of its rows.
abbrev pub tables : Html → List (List ℕ)
tables blank = []
tables (text t) = []
tables (formatted t) = []
tables (element tag h) = tables h
tables (link to h) = tables h
tables (anchor address h) = tables h
tables (bar width) = []
tables (table h) = row_widths h ∷ tables h
tables (row h) = tables h
tables (cell span h) = tables h
tables (a & b) = tables a ++ tables b

-- The texts of formatters, in order.
abbrev pub texts : Html → List (Option Text)
texts blank = []
texts (text t) = []
texts (formatted t) = t ∷ []
texts (element tag h) = texts h
texts (link to h) = texts h
texts (anchor address h) = texts h
texts (bar width) = []
texts (table h) = texts h
texts (row h) = texts h
texts (cell span h) = texts h
texts (a & b) = texts a ++ texts b

-- The widths of the bars, in order.
abbrev pub bars : Html → List Text
bars blank = []
bars (text t) = []
bars (formatted t) = []
bars (element tag h) = bars h
bars (link to h) = bars h
bars (anchor address h) = bars h
bars (bar width) = width ∷ []
bars (table h) = bars h
bars (row h) = bars h
bars (cell span h) = bars h
bars (a & b) = bars a ++ bars b

-- All rows take the same number of columns.
abbrev pub IsEven : List ℕ → Type 0
IsEven [] = Unit
IsEven (n ∷ ns) = All (λ m. m ≡ n) ns

-- A piece of a page without links of the app and without tables.
abbrev pub IsPlain : Html → Type 0
IsPlain h = (links h ≡ []) × (tables h ≡ [])

pub optional-IsPlain {ℓ} :
    {A : Type ℓ} (f : A → Html) (o : Option A) → ((a : A) → IsPlain (f a)) → IsPlain (optional f o)
optional-IsPlain f none h = (refl, refl)
optional-IsPlain f (some a) h = h a

pub each-IsPlain {ℓ} :
    {A : Type ℓ} (f : A → Html) (xs : List A) → ((a : A) → IsPlain (f a)) → IsPlain (each f xs)
each-IsPlain f [] h = (refl, refl)
each-IsPlain f (x ∷ xs) h =
    let (l, t) = h x in let (ls, ts) = each-IsPlain f xs h in (rw (l, ls) refl, rw (t, ts) refl)

-- One link in each piece.
pub links-each {ℓ} :
    {A : Type ℓ} (f : A → Html) (address : A → Text) (xs : List A)
    → ((a : A) → links (f a) ≡ address a ∷ [])
    → links (each f xs) ≡ map address xs
links-each f address [] h = refl
links-each f address (x ∷ xs) h = rw (h x, links-each f address xs h) refl

-- Pieces whose links all satisfy a predicate, any number of links in each.
pub links-each-All {ℓ} :
    (P : Text → Type 0) {A : Type ℓ} (f : A → Html) (xs : List A)
    → All (λ a. All P (links (f a))) xs
    → All P (links (each f xs))
links-each-All P f [] h = tt
links-each-All P f (x ∷ xs) (h, hs) =
    All-append P (links (f x)) (links (each f xs)) h (links-each-All P f xs hs)

pub tables-each {ℓ} :
    {A : Type ℓ} (f : A → Html) (xs : List A)
    → ((a : A) → tables (f a) ≡ [])
    → tables (each f xs) ≡ []
tables-each f [] h = refl
tables-each f (x ∷ xs) h = rw (h x, tables-each f xs h) refl

-- Rows of the same number of columns.
pub row_widths-each {ℓ} :
    {A : Type ℓ} (f : A → Html) (n : ℕ) (xs : List A)
    → ((a : A) → row_widths (f a) ≡ n ∷ [])
    → All (λ m. m ≡ n) (row_widths (each f xs))
row_widths-each f n [] h = tt
row_widths-each f n (x ∷ xs) h = rw (h x) (refl, row_widths-each f n xs h)

pub All-IsEven : (n : ℕ) (ns : List ℕ) → All (λ m. m ≡ n) ns → IsEven ns
All-IsEven n [] a = tt
All-IsEven n (m ∷ ns) (e, a) = All-mono (λ k. k ≡ n) (λ k. k ≡ m) ns (λ k h. h ∙ sym e) a

-- A table without a head.
pub each-IsEven {ℓ} :
    {A : Type ℓ} (f : A → Html) (n : ℕ) (xs : List A)
    → ((a : A) → row_widths (f a) ≡ n ∷ [])
    → IsEven (row_widths (each f xs))
each-IsEven f n xs h = All-IsEven n (row_widths (each f xs)) (row_widths-each f n xs h)
