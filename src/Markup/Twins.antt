-- ===== src/Markup/Twins.antt =====
-- The card of a group, of routes/Groups.js, beside the page of a group, of routes/Group.js, which has
-- the same code once more.
use mathlib.Core.Path.{ap₂}
use ribs.Base.{
  ap, sym, ◌∙◌, ℕ, ◌≡◌, refl, true, Option, none, some, List, [], ◌∷◌, ◌++◌, map, Text, codes,
}
use ribs.Number.Defs.{Number}
use ribs.Fmt.Dates.{Dates}
use ribs.Groups.Deals.{DealInfo, DealCounts, count_from, deal_counts, deals_to_display}
use ribs.Groups.Views.{
  group_link, of_meta, toggle_label, group_view, render_progress_bar, counts_text,
}
use ribs.Groups.Rows.{DealView, deal_view, timing}
use ribs.Groups.Page.{card_view}
use ribs.GroupPage.Page.{Page}
use ribs.GroupPage.View.{page_view, page_bar_width, page_deal_counts, page_reduce, page_count_deal}
use ribs.Markup.Html.{Html, optional, optional-IsPlain, each, links, texts, bars}
use ribs.Markup.Deals.{
  data_html, progress_bar_html, deal_html, toggle_html, card_html, deal_html-links,
}
use ribs.Markup.Groups.{group_html}

-- A link to the data of a deal and the button for failed deals have no text of a formatter and no bar.
IsSilent : Html → Type 0
IsSilent h = (texts h ≡ []) × (bars h ≡ [])

optional-IsSilent {ℓ} :
    {A : Type ℓ} (f : A → Html) (o : Option A)
    → ((a : A) → IsSilent (f a))
    → IsSilent (optional f o)
unfolding IsSilent
optional-IsSilent f none h = (refl, refl)
optional-IsSilent f (some a) h = h a

-- A deal whose data are linked elsewhere.
relinked :
    (v : DealView) (data_link : Option Text)
    → let w = record v { data_link = data_link } in
      (texts (deal_html v) ≡ texts (deal_html w)) × (bars (deal_html v) ≡ bars (deal_html w))
unfolding optional-IsSilent IsSilent
relinked v data_link =
    let (t, b) = optional-IsSilent data_html v.data_link (λ a. (refl, refl)) in
    let (u, c) = optional-IsSilent data_html data_link (λ a. (refl, refl)) in
    (rw (t, u) refl, rw (b, c) refl)

module _ (dates : Dates) (head_height : Number) (piece_cid cid root_cid : Text) where
  abbrev in_card : List DealInfo → Html
  in_card ds = each deal_html (map (deal_view dates head_height piece_cid cid) ds)

  abbrev on_page : List DealInfo → Html
  on_page ds = each deal_html (map (deal_view dates head_height piece_cid root_cid) ds)

  deal-same :
      (d : DealInfo)
      → let v = deal_view dates head_height piece_cid cid d in
        let w = deal_view dates head_height piece_cid root_cid d in
        (texts (deal_html v) ≡ texts (deal_html w))
        × (bars (deal_html v) ≡ bars (deal_html w))
        × (links (deal_html v) ≡ links (deal_html w))
  unfolding deal_view timing
  deal-same d =
      let v = deal_view dates head_height piece_cid cid d in
      let w = deal_view dates head_height piece_cid root_cid d in
      let (t, b) = relinked v w.data_link in
      (t, b, (deal_html-links v).0 ∙ sym (deal_html-links w).0)

  deals-same :
      (ds : List DealInfo)
      → (texts (in_card ds) ≡ texts (on_page ds))
        × (bars (in_card ds) ≡ bars (on_page ds))
        × (links (in_card ds) ≡ links (on_page ds))
  deals-same [] = (refl, refl, refl)
  deals-same (d ∷ ds) =
      let (t, b, l) = deal-same d in
      let (ts, bs, ls) = deals-same ds in
      (
        ap₂ (λ (x y : List (Option Text)). x ++ y) t ts,
        ap₂ (λ (x y : List Text). x ++ y) b bs,
        ap₂ (λ (x y : List Text). x ++ y) l ls,
      )

page_reduce-count_from : (c : DealCounts) (ds : List DealInfo) → page_reduce c ds ≡ count_from c ds
page_reduce-count_from c [] = refl
page_reduce-count_from c (d ∷ ds) = page_reduce-count_from (page_count_deal c d) ds

-- The page of a group and a card of the same group that shows its failed deals, at the same height of
-- the chain, have the same texts of formatters in the same order, the same bars, the same links, but
-- for the link of the card to the page, and the same text of counts, whatever CID the card is given.
pub card_html-group_html :
    (dates : Dates) (p : Page) (key : ℕ) (show_cid : Text)
    → let v = card_view dates p.head_height show_cid true p.group in
      let w = page_view dates p in
      let card = card_html key v in
      let page = group_html w in
      (texts card ≡ texts page)
      × (bars card ≡ bars page)
      × (links card ≡ group_link key ∷ links page)
      × (v.group.counts ≡ w.sealed ++ (w.started ++ w.errors))
unfolding card_view page_view group_view render_progress_bar page_bar_width counts_text deal_counts
    page_deal_counts deals_to_display optional-IsSilent IsSilent
card_html-group_html dates p key show_cid =
    let g = p.group in
    let (t, b, l) =
      deals-same dates p.head_height (of_meta (λ m. m.piece_cid) (codes "undefined") g.info)
        show_cid (of_meta (λ m. m.root_cid) [] g.info) g.deals in
    let (no_text, no_bar) =
      optional-IsSilent toggle_html (toggle_label true g) (λ a. (refl, refl)) in
    let (bl, _) =
      optional-IsPlain progress_bar_html (group_view g).blocks_bar (λ w. (refl, refl)) in
    let (yl, _) = optional-IsPlain progress_bar_html (group_view g).bytes_bar (λ w. (refl, refl)) in
    let (tl, _) = optional-IsPlain toggle_html (toggle_label true g) (λ a. (refl, refl)) in
    (
      rw (no_text, t) refl,
      rw (no_bar, b) refl,
      rw (bl, yl, tl) (ap (λ (x : List Text). group_link key ∷ x) l),
      rw (page_reduce-count_from (record { started = 0; sealed = 0; errors = 0 }) g.deals) refl,
    )
