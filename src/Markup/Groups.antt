-- ===== src/Markup/Groups.antt =====
-- The markup of `Groups` in routes/Groups.js and of routes/Group.js.
use mathlib.Core.Path.{subst}
use ribs.Base.{
  ℕ, ◌≡◌, refl, Bool, Option, none, some, List, [], ◌∷◌, ◌++◌, map, Text, codes, decimal, All,
  All-map, All-mono, sym, keep, not, true, false, Bool-cases, inl, inr,
}
use ribs.Number.Defs.{Number}
use ribs.Fmt.Dates.{Dates}
use ribs.Groups.Polling.{GroupData}
use ribs.Groups.Deals.{DealInfo, deals_to_display}
use ribs.Groups.Views.{group_link, of_meta}
use ribs.Groups.Rows.{deal_provider_link, deal_view}
use ribs.Groups.Page.{GroupsView, card_view}
use ribs.GroupPage.View.{PageView, page_view}
use ribs.GroupPage.Page.{Page}
use ribs.Markup.Html.{
  Html, text, formatted, element, bar, percent, optional, IsPlain, optional-IsPlain, ◌&◌, each,
  anchor_of, links, tables, each-IsPlain, links-each, links-each-All, tables-each,
}
use ribs.Markup.Deals.{deal_html, card_html, deal_html-links, card_html-links}

-- A key in the label of a button: none is undefined, which shows nothing.
abbrev pub key_text : Option ℕ → Text
key_text none = []
key_text (some key) = decimal key

abbrev pub page_button_html : ℕ × (Option ℕ × Option ℕ) → Html
page_button_html (page, (low, high)) =
    element (codes "button") (text (key_text low ++ (codes " - " ++ key_text high)))

-- The state of each card, by the key of its group: its switch and its group.
abbrev pub Cards : Type 0
Cards = ℕ → Bool × GroupData

-- A card by its key.
abbrev pub keyed_card_html : Dates → Number → Text → Cards → ℕ → Html
keyed_card_html dates head_height show_cid cards key =
    card_html key (card_view dates head_height show_cid (cards key).0 (cards key).1)

-- The links of a card and of its deals satisfy `P`.
abbrev pub IsLinked : (Text → Type 0) → Cards → ℕ → Type 0
IsLinked P cards key = P (group_link key) × All (λ d. P (deal_provider_link d)) (cards key).1.deals

-- `Groups`
abbrev pub groups_html : Dates → Number → Cards → GroupsView → Html
groups_html dates head_height cards v = element (codes "div") (
    element (codes "h2") (text (codes "Groups"))
    & element (codes "div") (each page_button_html v.buttons)
    & each (keyed_card_html dates head_height [] cards) v.cards)

-- The element of `renderProgressBar` of routes/Group.js.
abbrev pub page_bar_html : Number → Html
page_bar_html width = element (codes "div") (bar (percent width))

-- Its blocks, its bytes, with their bars, and its counts of deals.
abbrev pub page_amounts_html : PageView → Html
page_amounts_html v =
    element (codes "p") (text (codes "Blocks: ") & formatted v.blocks)
    & optional page_bar_html v.blocks_bar
    & element (codes "p") (text (codes "Bytes: ") & formatted v.bytes)
    & optional page_bar_html v.bytes_bar
    & element (codes "div") (text v.sealed & text v.started & text v.errors)

-- `Group` of routes/Group.js
abbrev pub group_html : PageView → Html
group_html v = element (codes "div") (
    element (codes "div") (
      element (codes "h3") (text v.heading)
      & element (codes "span") (text (codes "State: ") & element (codes "b") (text v.state))
      & page_amounts_html v
      & element (codes "div") (
          text (codes "PieceCID: " ++ (v.piece.0 ++ codes " "))
          & anchor_of (v.piece.1, codes "[filecoin.tools]"))
      & element (codes "div") (text (codes "RootCID: " ++ v.root)))
    & element (codes "div") (each deal_html v.deals))

All-keep {ℓ κ} :
    {A : Type ℓ} (P : A → Type κ) (p : A → Bool) (xs : List A) → All P xs → All P (keep p xs)
All-keep P p [] a = tt
All-keep P p (x ∷ xs) (h, a) = elim (Bool-cases (p x)) [
  | inl e ↦ rw (e, All) (h, All-keep P p xs a)
  | inr e ↦ rw (e, All) (All-keep P p xs a)
]

pub deals_to_display-All {κ} :
    (P : DealInfo → Type κ) (show : Bool) (ds : List DealInfo)
    → All P ds
    → All P (deals_to_display show ds)
unfolding deals_to_display
deals_to_display-All P true ds a = a
deals_to_display-All P false ds a = All-keep P (λ d. not d.failed) ds a

page_amounts_html-IsPlain : (v : PageView) → IsPlain (page_amounts_html v)
page_amounts_html-IsPlain v =
    let (cl, ct) = optional-IsPlain page_bar_html v.blocks_bar (λ a. (refl, refl)) in
    let (bl, bt) = optional-IsPlain page_bar_html v.bytes_bar (λ a. (refl, refl)) in
    (rw (cl, bl) refl, rw (ct, bt) refl)

-- The page of a group links to the providers of its deals, and has no table.
pub group_html-plain :
    (v : PageView)
    → (links (group_html v) ≡ map (λ d. d.provider.0) v.deals) × (tables (group_html v) ≡ [])
group_html-plain v =
    let (al, at) = page_amounts_html-IsPlain v in
    let dl = links-each deal_html (λ d. d.provider.0) v.deals (λ d. (deal_html-links d).0) in
    let dt = tables-each deal_html v.deals (λ d. (deal_html-links d).1) in
    (rw (al, dl) refl, rw (at, dt) refl)

module _ (P : Text → Type 0) where
  -- The links of deals, in a card and on the page of a group.
  links-deals :
      (dates : Dates) (head_height : Number) (piece_cid data_cid : Text) (ds : List DealInfo)
      → All (λ d. P (deal_provider_link d)) ds
      → All (λ v. P v.provider.0) (map (deal_view dates head_height piece_cid data_cid) ds)
  unfolding deal_view
  links-deals dates head_height piece_cid data_cid ds a =
      All-map (λ d. P (deal_provider_link d)) (λ v. P v.provider.0)
        (deal_view dates head_height piece_cid data_cid) ds (λ d h. h) a

  -- A card whose key and whose deals have links that satisfy `P`.
  pub keyed_card_html-links :
      (dates : Dates) (head_height : Number) (show_cid : Text) (cards : Cards) (key : ℕ)
      → IsLinked P cards key
      → All P (links (keyed_card_html dates head_height show_cid cards key))
  unfolding card_view deals_to_display
  keyed_card_html-links dates head_height show_cid cards key (h, a) =
      let (show, g) = cards key in
      let v = card_view dates head_height show_cid show g in
      subst (All P) (sym (card_html-links key v).0) (
        h,
        All-map (λ d. P d.provider.0) P (λ d. d.provider.0) v.deals (λ d hd. hd)
            (links-deals dates head_height (of_meta (λ m. m.piece_cid) (codes "undefined") g.info)
              show_cid (deals_to_display show g.deals)
              (deals_to_display-All (λ d. P (deal_provider_link d)) show g.deals a)),
      )

  pub groups_html-links :
      (dates : Dates) (head_height : Number) (cards : Cards) (v : GroupsView)
      → All (IsLinked P cards) v.cards
      → All P (links (groups_html dates head_height cards v))
  groups_html-links dates head_height cards v a =
      let (l, _) = each-IsPlain page_button_html v.buttons (λ b. (refl, refl)) in
      let goal =
        links-each-All P (keyed_card_html dates head_height [] cards) v.cards
          (All-mono _ _ v.cards (keyed_card_html-links dates head_height [] cards) a) in
      rw l goal

  pub group_html-links :
      (dates : Dates) (p : Page)
      → All (λ d. P (deal_provider_link d)) p.group.deals
      → All P (links (group_html (page_view dates p)))
  unfolding page_view
  group_html-links dates p a =
      let v = page_view dates p in
      subst (All P) (sym (group_html-plain v).0) (
        All-map (λ d. P d.provider.0) P (λ d. d.provider.0) v.deals (λ d h. h)
          (links-deals dates p.head_height _ _ p.group.deals a))

pub keyed_card_html-tables :
    (dates : Dates) (head_height : Number) (show_cid : Text) (cards : Cards) (key : ℕ)
    → tables (keyed_card_html dates head_height show_cid cards key) ≡ []
keyed_card_html-tables dates head_height show_cid cards key =
    (card_html-links key (card_view dates head_height show_cid (cards key).0 (cards key).1)).1

pub groups_html-tables :
    (dates : Dates) (head_height : Number) (cards : Cards) (v : GroupsView)
    → tables (groups_html dates head_height cards v) ≡ []
groups_html-tables dates head_height cards v =
    let (_, b) = each-IsPlain page_button_html v.buttons (λ b. (refl, refl)) in
    rw
      (
        b,
        tables-each (keyed_card_html dates head_height [] cards) v.cards
            (keyed_card_html-tables dates head_height [] cards),
      )
      refl
