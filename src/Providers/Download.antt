-- ===== src/Providers/Download.antt =====
-- `downloadCSV` of routes/Providers.js: what it asks of the browser, in order.
use ribs.Base.{none, some, List, [], ◌∷◌, Text, codes}
use ribs.Number.Defs.{Number}
use ribs.Fmt.Dates.{Dates}
use ribs.Providers.Page.{Provider}
use ribs.Providers.Rows.{generate_csv_data}

-- The body of the document and the element `a` are the only ones that it touches.
pub data Action : Type 0 where
  -- `new Blob([text], { type })` and its `createObjectURL`
  create_object_url : (text type : Text) → Action
  create_element : Text → Action
  set_attribute : (name value : Text) → Action
  append_child : Action
  click : Action
  remove_child : Action

-- `url` is what `createObjectURL` gives. Nothing happens where `generateCSVData` throws.
abbrev pub download_csv : Dates → Number → Text → List Provider → List Action
download_csv dates now url providers = elim (generate_csv_data dates now providers) [
  | none ↦ []
  | some csv_data ↦
      create_object_url csv_data (codes "text/csv")
      ∷ create_element (codes "a")
      ∷ set_attribute (codes "hidden") []
      ∷ set_attribute (codes "href") url
      ∷ set_attribute (codes "download") (codes "providers.csv")
      ∷ append_child
      ∷ click
      ∷ remove_child
      ∷ []
]
