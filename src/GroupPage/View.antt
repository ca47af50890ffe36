-- ===== src/GroupPage/View.antt =====
-- What the page of a group shows (routes/Group.js): it counts the deals and draws the bars by itself; the
-- names of the states and the rows of deals are those that it imports from routes/Groups.js.
use ribs.Base.{
  ℕ, ◌+◌, ◌++◌, Option, none, some, [], ◌∷◌, List, map, Text, codes, decimal, ltb, if◌then◌else◌,
}
use ribs.Number.Defs.{Number, of_ℕ, mul, div}
use ribs.Status.Cells.{num, bytes, field}
use ribs.Fmt.Dates.{Dates}
use ribs.Groups.Deals.{DealInfo, DealCounts}
use ribs.Groups.Polling.{Meta, GroupData, has_state, group_state_writable}
use ribs.Groups.Views.{state_text, both, of_meta}
use ribs.Groups.Rows.{DealView, deal_view}
use ribs.GroupPage.Page.{Page}

-- The width of `renderProgressBar`, in percent.
unfoldable pub page_bar_width : Number → Number → Number
page_bar_width bytes max_bytes = mul (div bytes max_bytes) (of_ℕ 100)

-- The bar of a group that is writable; none for another.
abbrev pub page_bar : (Meta → ℕ) → (Meta → ℕ) → GroupData → Option Number
page_bar part total group =
    if has_state group group_state_writable
    then elim group.info [
      | none ↦ none
      | some m ↦ some (page_bar_width (of_ℕ (part m)) (of_ℕ (total m)))
    ]
    else none

-- `dealCounts`: the function that is reduced, and its reduction of the deals.
abbrev pub page_count_deal : DealCounts → DealInfo → DealCounts
page_count_deal counts deal =
    if deal.failed
    then record counts { errors = counts.errors + 1 }
    else if deal.sealed
    then record counts { sealed = counts.sealed + 1 }
    else record counts { started = counts.started + 1 }

abbrev pub page_reduce : DealCounts → List DealInfo → DealCounts
page_reduce counts [] = counts
page_reduce counts (deal ∷ deals) = page_reduce (page_count_deal counts deal) deals

unfoldable pub page_deal_counts : List DealInfo → DealCounts
page_deal_counts deals = page_reduce (record { started = 0; sealed = 0; errors = 0 }) deals

-- A count that is not zero, with its word; `behind` follows it.
abbrev pub page_count : ℕ → Text → Text → Text
page_count n word behind = if ltb 0 n then decimal n ++ (word ++ behind) else []

-- `piece` is a text and the address of its link.
pub record PageView : Type 0 where
  pub heading : Text
  pub state : Text
  pub blocks : Option Text
  pub blocks_bar : Option Number
  pub bytes : Option Text
  pub bytes_bar : Option Number
  pub sealed : Text
  pub started : Text
  pub errors : Text
  pub piece : Text × Text
  pub root : Text
  pub deals : List DealView

abbrev of_reply : (Meta → ℕ) → Option Meta → Option Number
of_reply f info = field (λ m. of_ℕ (f m)) info

-- All deals are shown.
unfoldable pub page_view : Dates → Page → PageView
page_view dates p =
    let group = p.group in
    let info = group.info in
    let deal_counts = page_deal_counts group.deals in
    record {
      heading = codes "Group " ++ (elim group.group_key [ none ↦ [] | some k ↦ decimal k ]);
      state = state_text group;
      blocks =
          both (codes " / ") (num (of_reply (λ m. m.blocks) info))
            (num (of_reply (λ m. m.max_blocks) info));
      blocks_bar = page_bar (λ m. m.blocks) (λ m. m.max_blocks) group;
      bytes =
          both (codes " / ") (bytes (of_reply (λ m. m.bytes) info))
            (bytes (of_reply (λ m. m.max_bytes) info));
      bytes_bar = page_bar (λ m. m.bytes) (λ m. m.max_bytes) group;
      sealed = page_count deal_counts.sealed (codes " Sealed") (codes " | ");
      started = page_count deal_counts.started (codes " Started") (codes " | ");
      errors = page_count deal_counts.errors (codes " Errored") [];
      piece = (
        of_meta (λ m. m.piece_cid) [] info,
        codes "https://filecoin.tools/" ++ of_meta (λ m. m.piece_cid) (codes "undefined") info,
      );
      root = of_meta (λ m. m.root_cid) [] info;
      deals =
          map
            (deal_view dates p.head_height (of_meta (λ m. m.piece_cid) (codes "undefined") info)
              (of_meta (λ m. m.root_cid) [] info))
            group.deals;
    }
