-- ===== src/Groups/Buttons.antt =====
-- `Groups` (routes/Groups.js) over time: what its buttons do, and how long the page stays.
use mathlib.Core.Option
use ribs.Base.{
  ℕ, zero, suc, ◌+◌, ◌-◌, ◌<◌, ◌≡◌, refl, ap, Bool, true, false, not, Option, none, some, List, [],
  ◌∷◌, arith, length, get_elem?,
}
use ribs.Number.Defs.{Number}
use ribs.Groups.Pages.{page, total_pages, button_page, button_label, button_label-page}
use ribs.Groups.Page.{
  GroupsState, groups_state, Reply, reply, error, fetch_groups, handle_page_change, GroupsView,
  buttons, groups_view,
}

pub data Event : Type 0 where
  fetched : Reply (Option (List ℕ)) → Reply Number → Event
  changed : ℕ → Event

-- The state after an event, none when the page cannot be rendered: then it is gone, with its interval.
abbrev rendered : GroupsState → Option GroupsState
rendered s = elim (groups_view s) [ none ↦ none | some view ↦ some s ]

unfoldable pub step : Option GroupsState → Event → Option GroupsState
step none e = none
step (some s) (fetched keys head) = rendered (fetch_groups keys head s)
step (some s) (changed target) = rendered (handle_page_change target s)

unfoldable pub run : Option GroupsState → List Event → Option GroupsState
run s [] = s
run s (e ∷ es) = run (step s e) es

abbrev pub is_null : Event → Bool
is_null (fetched error head) = false
is_null (fetched (reply none) head) = true
is_null (fetched (reply (some keys)) head) = false
is_null (changed target) = false

abbrev pub any_null : List Event → Bool
any_null [] = false
any_null (e ∷ es) = let rest = any_null es in elim (is_null e) [ true ↦ true | false ↦ rest ]

abbrev pub stays : Option GroupsState → Bool
stays none = false
stays (some s) = true

rendered-keys : (s : GroupsState) (keys : List ℕ) → s.group_keys ≡ some keys → rendered s ≡ some s
unfolding groups_view
rendered-keys s keys e = rw e refl

run-none : (es : List Event) → run none es ≡ none
unfolding run step
run-none [] = refl
run-none (e ∷ es) = run-none es

run-keys :
    (s : GroupsState) (keys : List ℕ) (es : List Event)
    → s.group_keys ≡ some keys
    → stays (run (some s) es) ≡ not (any_null es)
unfolding run step groups_view fetch_groups handle_page_change
run-keys s keys [] e = refl
run-keys s keys (changed target ∷ es) e =
    let next = handle_page_change target s in
    rw (rendered-keys next keys e) (run-keys next keys es e)
run-keys s keys (fetched error head ∷ es) e = rw (rendered-keys s keys e) (run-keys s keys es e)
run-keys s keys (fetched (reply none) error ∷ es) e = ap stays (run-none es)
run-keys s keys (fetched (reply none) (reply height) ∷ es) e = ap stays (run-none es)
run-keys s keys (fetched (reply (some new)) error ∷ es) e =
    run-keys (fetch_groups (reply (some new)) error s) new es refl
run-keys s keys (fetched (reply (some new)) (reply height) ∷ es) e =
    run-keys (fetch_groups (reply (some new)) (reply height) s) new es refl

-- Whatever the node answers and the user clicks: the page is gone exactly if one of the replies to
-- "Groups" was null, as it is when the node has no groups; errors leave it.
pub run-stays : (es : List Event) → stays (run (some groups_state) es) ≡ not (any_null es)
run-stays es = run-keys groups_state [] es refl

buttons-at :
    (keys : List ℕ) (from count index : ℕ)
    → index < count
    → get_elem? (buttons keys from count) index
      ≡ some (button_page keys (from + index), button_label keys (from + index))
buttons-at keys from zero index h = absurd (omega arith)
buttons-at keys from (suc count) zero h = let e : from + 0 ≡ from = omega arith in rw e refl
buttons-at keys from (suc count) (suc index) h =
    let e : from + suc index ≡ suc from + index = omega arith in
    rw e (buttons-at keys (suc from) count index (omega arith))

-- For groups on the page, and a button of it, at `index`: a click on it shows at least one card, and
-- the label of the button is the first and the last group of the cards that are shown then.
pub click-label :
    (s : GroupsState) (keys : List ℕ) (index : ℕ)
    → s.group_keys ≡ some keys
    → index < total_pages keys
    → (after : GroupsView) × (groups_view (handle_page_change (button_page keys index) s)
        ≡ some after)
      × (0 < length after.cards)
      × (Option.map (λ view. get_elem? view.buttons index) (groups_view s)
          ≡ some (
              some (
                button_page keys index,
                (get_elem? after.cards 0, get_elem? after.cards (length after.cards - 1)),
              )))
unfolding groups_view handle_page_change
click-label s keys index e h =
    let from_zero : 0 + index ≡ index = omega arith in
    let (some_card, label) = button_label-page keys index h in
    (
      record {
        buttons = buttons keys 0 (total_pages keys);
        cards = page keys (button_page keys index);
      },
      rw e refl,
      some_card,
      rw (e, buttons-at keys 0 (total_pages keys) index h, from_zero, label) refl,
    )
