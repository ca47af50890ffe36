-- ===== src/Content/Clicks.antt =====
-- What `Content` (routes/Content.js) never shows together, and what a click on a group does.
use ribs.Base.{
  ℕ, zero, suc, ◌+◌, ◌<◌, ◌≡◌, ◌⊎◌, inl, inr, refl, ap, sym, ◌∙◌, Bool, true, false, not, Option,
  none, some, List, [], ◌∷◌, map, Text, ◌==◌, if◌then◌else◌, arith, length, get_elem?, Bool-cases,
}
use ribs.Content.Page.{
  Page, start, Answer, result, thrown, find_cid, fetch_head, is_expanded, handle_group_click, Event,
  edit, answered, head, click, step, run, nothing, is_card, items, shown_results,
}

-- No error stands beside groups.
abbrev IsClear : Page → Type 0
IsClear p = (p.error ≡ none) ⊎ (p.group_ids ≡ none)

find_cid-IsClear :
    (searched : Text) (answer : Answer) (p : Page)
    → IsClear p
    → IsClear (find_cid searched answer p)
unfolding find_cid
find_cid-IsClear [] answer p c = c
find_cid-IsClear (x ∷ xs) (result ids) p c = inl refl
find_cid-IsClear (x ∷ xs) (thrown message) p c = inr refl

handle_group_click-IsClear : (id : ℕ) (p : Page) → IsClear p → IsClear (handle_group_click id p)
unfolding handle_group_click
handle_group_click-IsClear id p c = elim (Bool-cases (is_expanded p id)) [
  | inl e ↦ rw e c
  | inr e ↦ rw e c
]

fetch_head-IsClear : (height : Option ℕ) (p : Page) → IsClear p → IsClear (fetch_head height p)
unfolding fetch_head
fetch_head-IsClear none p c = c
fetch_head-IsClear (some h) p c = c

step-IsClear : (p : Page) (e : Event) → IsClear p → IsClear (step p e)
unfolding step
step-IsClear p (edit text) c = c
step-IsClear p (answered searched answer) c = find_cid-IsClear searched answer p c
step-IsClear p (head height) c = fetch_head-IsClear height p c
step-IsClear p (click id) c = handle_group_click-IsClear id p c

run-IsClear : (p : Page) (es : List Event) → IsClear p → IsClear (run p es)
unfolding run
run-IsClear p [] c = c
run-IsClear p (e ∷ es) c = run-IsClear (step p e) es (step-IsClear p e c)

shown_results-nothing : (p : Page) → p.group_ids ≡ none → shown_results p ≡ nothing
unfolding shown_results
shown_results-nothing p e = rw e

-- Whatever was typed, searched, answered and clicked, in any order: a page that shows an error shows
-- neither groups nor "Not Found".
pub run-error_alone :
    (es : List Event) {message : Text}
    → (run start es).error ≡ some message
    → shown_results (run start es) ≡ nothing
run-error_alone es e = elim (run-IsClear start es (inl refl)) [
  | inl clear ↦ absurd cc
  | inr none_found ↦ shown_results-nothing (run start es) none_found
]

-- The card of an index is open exactly if the index is the expanded one.
items-at :
    (p : Page) (index : ℕ) (ids : List ℕ) (j : ℕ)
    → j < length ids
    → get_elem? (map is_card (items p index ids)) j ≡ some (is_expanded p (index + j))
unfolding items
items-at p index [] j h = absurd (omega arith)
items-at p index (id ∷ ids) zero h =
    let e : index + 0 ≡ index = omega arith in
    elim (Bool-cases (is_expanded p index)) [ inl x ↦ rw (e, x) | inr x ↦ rw (e, x) ]
items-at p index (id ∷ ids) (suc j) h =
    let e : index + suc j ≡ suc index + j = omega arith in
    rw e (items-at p (suc index) ids j (omega arith))

same_or_not : (b : Bool) → (if b then true else false) ≡ b
same_or_not true = refl
same_or_not false = refl

both_false : (b : Bool) → (if b then false else false) ≡ false
both_false true = refl
both_false false = refl

handle_group_click-expanded :
    (p : Page) (i : ℕ) (j : ℕ)
    → is_expanded (handle_group_click i p) j ≡ (if j == i then not (is_expanded p i) else false)
unfolding handle_group_click
handle_group_click-expanded p i j = elim (Bool-cases (is_expanded p i)) [
  | inl e ↦ rw e (sym (both_false (j == i)))
  | inr e ↦ rw e (sym (same_or_not (j == i)))
]

-- After a click on the group at index `i`: of the groups that the page lists, the one at `i` is open
-- if it was closed and closed if it was open, and every other one is closed.
pub click-one_open :
    (p : Page) (i : ℕ) (ids : List ℕ) (j : ℕ)
    → j < length ids
    → get_elem? (map is_card (items (handle_group_click i p) 0 ids)) j
      ≡ some (if j == i then not (is_expanded p i) else false)
click-one_open p i ids j h =
    let e : 0 + j ≡ j = omega arith in
    (rw e at (items-at (handle_group_click i p) 0 ids j h))
    ∙ ap some (handle_group_click-expanded p i j)
