-- ===== src/Markup/GroupTexts.antt =====
-- The texts of formatters on the pages of groups and of the search.
use ribs.Base.{
  ℕ, List, [], ◌∷◌, ◌++◌, Text, codes, All, All-append, All-mono, All_of, Bool-cases, inl, inr, suc,
  Option-cases,
}
use mathlib.Core.Path.{subst}
use ribs.Number.Defs.{Number, of_ℕ}
use ribs.Fmt.Dates.{Dates}
use ribs.Fmt.Loops.{Returns}
use ribs.Groups.Deals.{deals_to_display}
use ribs.Groups.Views.{of_meta}
use ribs.Groups.Page.{GroupsView, card_view}
use ribs.GroupPage.View.{page_view}
use ribs.GroupPage
use ribs.Content
use ribs.Content.Page.{items, is_expanded, shown_results}
use ribs.Markup.Html.{each, optional, texts}
use ribs.Markup.Texts.{Renders, optional-Renders, each-Renders, HasTimes, IsEpoch}
use ribs.Markup.CardTexts.{
  deals_html-Renders, amounts_html-Renders, page_amounts_html-Renders, IsDated,
}
use ribs.Markup.Deals.{toggle_html, amounts_html}
use ribs.Markup.Groups.{
  Cards, page_button_html, page_amounts_html, keyed_card_html, groups_html, group_html,
  deals_to_display-All,
}
use ribs.Markup.Content.{item_html, results_html, message_html, content_html, listed_ids}

module _ (dates : Dates) (times : HasTimes dates) where
  keyed_card_html-Renders :
      (head_height : Number) (show_cid : Text) (cards : Cards) (key : ℕ)
      → IsDated (cards key).1
      → Renders (keyed_card_html dates head_height show_cid cards key)
  unfolding card_view
  keyed_card_html-Renders head_height show_cid cards key h =
      let (show, g) = cards key in
      let v = card_view dates head_height show_cid show g in
      All-append Returns
        (texts (amounts_html v.group) ++ (texts (optional toggle_html v.toggle) ++ [])) _
        (All-append Returns (texts (amounts_html v.group)) _ (amounts_html-Renders g h) (
          All-append Returns (texts (optional toggle_html v.toggle)) []
            (optional-Renders toggle_html v.toggle (λ t. tt)) tt))
        (deals_html-Renders dates times head_height
          (of_meta (λ m. m.piece_cid) (codes "undefined") g.info) show_cid
          (deals_to_display show g.deals)
          (deals_to_display-All (λ d. IsEpoch d.end_epoch) show g.deals h.ends))

  pub groups_html-Renders :
      (head_height : Number) (cards : Cards) (v : GroupsView)
      → All (λ key. IsDated (cards key).1) v.cards
      → Renders (groups_html dates head_height cards v)
  groups_html-Renders head_height cards v a =
      All-append Returns (texts (each page_button_html v.buttons)) _
        (each-Renders page_button_html v.buttons (All_of _ v.buttons (λ b. tt)))
        (each-Renders (keyed_card_html dates head_height [] cards) v.cards
          (All-mono _ _ v.cards (keyed_card_html-Renders head_height [] cards) a))

  pub group_html-Renders :
      (p : GroupPage.Page.Page) → IsDated p.group → Renders (group_html (page_view dates p))
  unfolding page_view
  group_html-Renders p h =
      let v = page_view dates p in
      All-append Returns (texts (page_amounts_html v) ++ []) _
        (All-append Returns (texts (page_amounts_html v)) [] (page_amounts_html-Renders dates p h)
          tt)
        (deals_html-Renders dates times p.head_height _ _ p.group.deals h.ends)

  item-Renders :
      (cards : Cards) (p : Content.Page.Page) (index : ℕ) (ids : List ℕ)
      → All (λ key. IsDated (cards key).1) ids
      → Renders (each (item_html dates cards) (items p index ids))
  unfolding items
  item-Renders cards p index [] a = tt
  item-Renders cards p index (id ∷ ids) (h, a) =
      let rest = item-Renders cards p (suc index) ids a in
      elim (Bool-cases (is_expanded p index)) [
        | inl e ↦ rw e (
            All-append Returns (texts (keyed_card_html dates (of_ℕ p.head_height) p.cid cards id)) _
              (keyed_card_html-Renders (of_ℕ p.head_height) p.cid cards id h) rest)
        | inr e ↦ rw e rest
      ]

  results-Renders :
      (cards : Cards) (p : Content.Page.Page)
      → All (λ key. IsDated (cards key).1) (listed_ids p.group_ids)
      → Renders (results_html dates cards (shown_results p))
  unfolding shown_results items
  results-Renders cards p a = elim (Option-cases p.group_ids) [
    | inl e ↦ rw e tt
    | inr ([], e) ↦ rw e tt
    | inr (id ∷ ids, e) ↦ rw e (
        item-Renders cards p 0 (id ∷ ids)
          (subst (λ o. All (λ key. IsDated (cards key).1) (listed_ids o)) e a))
  ]

  pub content_html-Renders :
      (cards : Cards) (p : Content.Page.Page)
      → All (λ key. IsDated (cards key).1) (listed_ids p.group_ids)
      → Renders (content_html dates cards p)
  content_html-Renders cards p a =
      All-append Returns (texts (results_html dates cards (shown_results p))) _
        (results-Renders cards p a) (optional-Renders message_html p.error (λ m. tt))
