-- ===== src/Status/Cells.antt =====
-- The cells of the tables of routes/Status.js: a label and a text. The text is none where a formatter
-- does not return.
use mathlib.Core.Option
use ribs.Base.{Option, none, some, [], ◌++◌, Text}
use ribs.Number.Defs.{Number, or_nan}
use ribs.Number.Print.{to_text}
use ribs.Fmt.Units.{format_num, format_num6, format_bytes_binary}

abbrev pub Row : Type 0
Row = Text × Option Text

-- A value that stands in the markup: `undefined` shows nothing.
unfoldable pub plain_text : Option Number → Text
plain_text none = []
plain_text (some x) = to_text x

abbrev pub plain : Option Number → Option Text
plain x = some (plain_text x)

abbrev pub followed_by : Text → Option Text → Option Text
followed_by suffix cell = Option.map (λ t. t ++ suffix) cell

-- `formatNum(x)`, `formatNum6(x)` and `formatBytesBinary(x)` of a field.
abbrev pub num : Option Number → Option Text
num x = format_num (or_nan x) 0

abbrev pub num6 : Option Number → Option Text
num6 x = format_num6 (or_nan x)

abbrev pub bytes : Option Number → Option Text
bytes x = format_bytes_binary (or_nan x)

-- A field of a reply that may not be there yet.
abbrev pub field {ℓ} : {A : Type ℓ} → (A → Number) → Option A → Option Number
field f none = none
field f (some r) = some (f r)
