-- ===== src/Root/Frame.antt =====
-- `Root` of routes/Root.js: the path in its head and the links beside the page.
use ribs.Base.{ℕ, List, [], ◌∷◌, Text, codes, text_eq, ◌==◌, if◌then◌else◌}

-- `s.replace(c, "")` for a text of one character: the first one goes.
abbrev pub without_first : ℕ → Text → Text
without_first c [] = []
without_first c (x ∷ s) = let rest = without_first c s in if x == c then s else x ∷ rest

-- `formatPath`
unfoldable pub format_path : Text → Text
format_path pathname =
    if text_eq pathname (codes "/") then codes "Status" else without_first b'/' pathname

-- The addresses of the links with their texts.
abbrev pub nav_items : List (Text × Text)
nav_items =
    (codes "/", codes "Status")
    ∷ (codes "/groups", codes "Groups")
    ∷ (codes "/providers", codes "Providers")
    ∷ (codes "/content", codes "Content")
    ∷ (codes "/repair", codes "Repair")
    ∷ []
