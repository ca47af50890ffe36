-- ===== src/Content/Page.antt =====
-- `Content` of routes/Content.js: its state, its handlers and what it shows. React 18 renders once for
-- the setters that one turn of a handler calls. `RibsRPC.call` and the network are outside: an answer
-- to a search is an event, and several searches may be under way.
use ribs.Base.{
  ℕ, suc, Bool, true, false, not, Option, none, some, List, [], ◌∷◌, Text, text_eq, ◌==◌,
  if◌then◌else◌,
}

pub record Page : Type 0 where
  pub cid : Text
  pub group_ids : Option (List ℕ)
  pub head_height : ℕ
  pub expanded_group_id : Option ℕ
  pub error : Option Text

abbrev pub start : Page
start = record {
  cid = [];
  group_ids = none;
  head_height = 0;
  expanded_group_id = none;
  error = none;
}

-- What a call gives: a result, which is null where the node has no list, or the message of the error
-- that it throws.
pub data Answer : Type 0 where
  result : Option (List ℕ) → Answer
  thrown : Text → Answer

-- `findCid` of the render whose `cid` is `searched`, whose call gives `answer`.
unfoldable pub find_cid : Text → Answer → Page → Page
find_cid searched answer p =
    if not (text_eq searched [])
    then (elim answer [
      | result ids ↦ record p { error = none; group_ids = ids; expanded_group_id = some 0 }
      | thrown message ↦ record p { error = some message; group_ids = none }
    ])
    else p

-- `fetchHead`; an error is only logged.
unfoldable pub fetch_head : Option ℕ → Page → Page
fetch_head none p = p
fetch_head (some height) p = record p { head_height = height }

-- `id === expandedGroupId`
abbrev pub is_expanded : Page → ℕ → Bool
is_expanded p id = elim p.expanded_group_id [ none ↦ false | some j ↦ id == j ]

unfoldable pub handle_group_click : ℕ → Page → Page
handle_group_click id p =
    if is_expanded p id
    then record p { expanded_group_id = none }
    else record p { expanded_group_id = some id }

pub data Event : Type 0 where
  edit : Text → Event
  answered : Text → Answer → Event
  head : Option ℕ → Event
  click : ℕ → Event

unfoldable pub step : Page → Event → Page
step p (edit text) = record p { cid = text }
step p (answered searched answer) = find_cid searched answer p
step p (head height) = fetch_head height p
step p (click id) = handle_group_click id p

unfoldable pub run : Page → List Event → Page
run p [] = p
run p (e ∷ es) = run (step p e) es

-- A line of the list of groups: the name of the group, or its card with the CID.
pub data Item : Type 0 where
  named : ℕ → Item
  card : ℕ → ℕ → Text → Item

pub data Results : Type 0 where
  nothing : Results
  not_found : Results
  found : Text → List Item → Results

abbrev pub is_card : Item → Bool
is_card (named id) = false
is_card (card id height cid) = true

-- The function given to `groupIds.map`, from an index on.
unfoldable pub items : Page → ℕ → List ℕ → List Item
items p index [] = []
items p index (id ∷ ids) =
    (if is_expanded p index then card id p.head_height p.cid else named id)
    ∷ items p (suc index) ids

-- What stands under the search field, and the error below it.
unfoldable pub shown_results : Page → Results
shown_results p = elim p.group_ids [
  | none ↦ nothing
  | some [] ↦ not_found
  | some (id ∷ ids) ↦ found p.cid (items p 0 (id ∷ ids))
]
