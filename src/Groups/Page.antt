-- ===== src/Groups/Page.antt =====
-- `Groups` (routes/Groups.js): its list of groups, and the card of a group with its switch.
use ribs.Base.{ℕ, zero, suc, ◌∷◌, Bool, not, Option, none, some, List, [], map, Text, codes}
use ribs.Number.Defs.{Number, of_ℕ}
use ribs.Fmt.Dates.{Dates}
use ribs.Groups.Deals.{deals_to_display}
use ribs.Groups.Pages.{page, total_pages, button_page, button_label}
use ribs.Groups.Polling.{GroupData}
use ribs.Groups.Rows.{DealView, deal_view}
use ribs.Groups.Views.{GroupView, group_view, of_meta, toggle_label}

-- `groupKeys` is none for null, which the node sends when it has no groups.
pub record GroupsState : Type 0 where
  pub group_keys : Option (List ℕ)
  pub head_height : Number
  pub current_page : ℕ

abbrev pub groups_state : GroupsState
groups_state = record { group_keys = some []; head_height = of_ℕ 0; current_page = 0 }

-- What a call of the node gives.
pub data Reply {ℓ} (A : Type ℓ) : Type ℓ where
  reply : A → Reply A
  error : Reply A

-- `fetchGroups` under the replies to "Groups" and "ChainHead": the second call is made when the first
-- one has been answered.
unfoldable pub fetch_groups : Reply (Option (List ℕ)) → Reply Number → GroupsState → GroupsState
fetch_groups error head s = s
fetch_groups (reply group_keys) error s = record s { group_keys = group_keys }
fetch_groups (reply group_keys) (reply height) s = record s {
  group_keys = group_keys;
  head_height = height;
}

-- `handlePageChange`
unfoldable pub handle_page_change : ℕ → GroupsState → GroupsState
handle_page_change page s = record s { current_page = page }

-- A button has the page that it selects and the keys that it is labelled with.
pub record GroupsView : Type 0 where
  pub buttons : List (ℕ × (Option ℕ × Option ℕ))
  pub cards : List ℕ

-- The buttons from an index on, `count` of them.
abbrev pub buttons : List ℕ → ℕ → ℕ → List (ℕ × (Option ℕ × Option ℕ))
buttons keys index zero = []
buttons keys index (suc count) =
    (button_page keys index, button_label keys index) ∷ buttons keys (suc index) count

-- What is shown; none stands for the error that `groupKeys.length` throws on null, which takes the page
-- away.
unfoldable pub groups_view : GroupsState → Option GroupsView
groups_view s = elim s.group_keys [
  | none ↦ none
  | some keys ↦
      some
        (record { buttons = buttons keys 0 (total_pages keys); cards = page keys s.current_page })
]

-- `toggleShowFailedDeals`
abbrev pub toggle_show_failed_deals : Bool → Bool
toggle_show_failed_deals = not

-- A card: `toggle` is the label of the button for failed deals.
pub record CardView : Type 0 where
  pub group : GroupView
  pub toggle : Option Text
  pub deals : List DealView

-- `show_cid` is the CID that routes/Content.js passes, and empty on this page.
unfoldable pub card_view : Dates → Number → Text → Bool → GroupData → CardView
card_view dates head_height show_cid show_failed_deals g = record {
  group = group_view g;
  toggle = toggle_label show_failed_deals g;
  deals =
      map
        (deal_view dates head_height (of_meta (λ m. m.piece_cid) (codes "undefined") g.info)
          show_cid)
        (deals_to_display show_failed_deals g.deals);
}
