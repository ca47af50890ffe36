-- ===== src/Content/Searches.antt =====
-- What a search of routes/Content.js shows once the node has answered.
use ribs.Base.{ℕ, suc, ◌≡◌, ◌≢◌, arith, ==_ne, refl, ap, none, some, List, [], ◌∷◌, map, Text}
use ribs.Content.Page.{
  Page, result, thrown, find_cid, step, edit, nothing, not_found, found, named, card, items,
  shown_results,
}

-- Only the group at index 0 is open.
items-named :
    (p : Page) (index : ℕ) (ids : List ℕ)
    → p.expanded_group_id ≡ some 0
    → items p (suc index) ids ≡ map named ids
unfolding items
items-named p index [] e = refl
items-named p index (id ∷ ids) e =
    rw (e, ==_ne (suc index) 0 (omega arith))
      (ap (λ rest. named id ∷ rest) (items-named p (suc index) ids e))

-- When the call of a search is answered, whatever was shown: a null reply shows nothing, like a page
-- on which nothing was searched, an empty list shows "Not Found", and groups are listed with the first
-- one open and the others closed, without an error in each of these cases, and still stand there, under
-- the new text, when the field is edited afterwards; an error of the call is shown alone.
pub find_cid-shown :
    (searched : Text) (p : Page) (id : ℕ) (ids : List ℕ) (message text : Text)
    → searched ≢ []
    → let null = find_cid searched (result none) p in
      let empty = find_cid searched (result (some [])) p in
      let listed = find_cid searched (result (some (id ∷ ids))) p in
      let failed = find_cid searched (thrown message) p in
      ((shown_results null ≡ nothing) × (null.error ≡ none))
      × ((shown_results empty ≡ not_found) × (empty.error ≡ none))
      × ((shown_results listed ≡ found p.cid (card id p.head_height p.cid ∷ map named ids))
          × (listed.error ≡ none))
      × ((shown_results failed ≡ nothing) × (failed.error ≡ some message))
      × (shown_results (step listed (edit text))
          ≡ found text (card id p.head_height text ∷ map named ids))
unfolding find_cid shown_results items step
find_cid-shown [] p id ids message text ne = absurd (ne refl)
find_cid-shown (c ∷ cs) p id ids message text ne =
    let listed = record p {
      error = none;
      group_ids = some (id ∷ ids);
      expanded_group_id = some 0;
    } in
    let edited = record listed { cid = text } in
    let first = card id p.head_height p.cid in
    (
      (refl, refl),
      (refl, refl),
      (ap (λ rest. found p.cid (first ∷ rest)) (items-named listed 0 ids refl), refl),
      (refl, refl),
      ap (λ rest. found text (card id p.head_height text ∷ rest)) (items-named edited 0 ids refl),
    )
