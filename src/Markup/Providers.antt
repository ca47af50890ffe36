-- ===== src/Markup/Providers.antt =====
-- The markup of routes/Providers.js and of routes/Provider.js, with the texts of Providers/Rows.antt
-- and ProviderPage/Rows.antt.
use ribs.Base.{
  ℕ, suc, ◌≡◌, refl, Option, List, [], ◌∷◌, ◌++◌, Text, codes, All, text_eq, Bool-cases, inl, inr,
  Option-cases, if◌then◌else◌,
}
use ribs.Number.Defs.{Number}
use ribs.Fmt.Dates.{Dates}
use ribs.Status.Cells.{Row}
use ribs.Providers.Page.{Provider}
use ribs.Providers.Rows.{ProviderRow, provider_link, provider_row, provider_rows}
use ribs.ProviderPage.Page.{ProviderInfo, ProviderState}
use ribs.ProviderPage.Rows.{Transfer, DealRow, meta_rows, deal_rows}
use ribs.Markup.Html.{
  Html, blank, text, formatted, element, link, bar, table, row, cell, ◌&◌, optional, each, cell_of,
  head_row, anchor_of, links, tables, IsEven, percent, IsPlain, optional-IsPlain, each-IsPlain,
  each-IsEven, tables-each, row_widths-each,
}

-- A number with its bar.
abbrev pub bar_cell_html : Text → Number → Html
bar_cell_html t width = cell 1 (text t & element (codes "div") (bar (percent width)))

abbrev pub provider_row_html : ProviderRow → Html
provider_row_html r = row (
    cell_of r.position
    & cell 1 (link r.link (text r.address))
    & cell 1
        (element (codes "div") (formatted r.piece_sizes) & element (codes "div") (text r.prices))
    & cell_of r.features
    & cell_of r.started
    & bar_cell_html r.rejected r.bars.rejected
    & bar_cell_html r.fail r.bars.fail
    & bar_cell_html r.success r.bars.success
    & bar_cell_html r.retriev r.bars.retriev
    & cell 1 (formatted r.last_start))

abbrev pub providers_head_html : Html
providers_head_html = row (
    cell 1 blank
    & cell_of (codes "Address")
    & cell 1 (
        element (codes "div") (text (codes "Piece Sizes"))
        & element (codes "div") (text (codes "Price")))
    & cell_of (codes "Features")
    & cell_of (codes "Started")
    & cell_of (codes "Rejected")
    & cell_of (codes "Failed")
    & cell_of (codes "Sealed")
    & cell_of (codes "Retriev")
    & cell_of (codes "Last Deal Start"))

-- `Providers` of routes/Providers.js
abbrev pub providers_html : List ProviderRow → Html
providers_html rows = element (codes "div") (
    element (codes "h2") (text (codes "Providers"))
    & element (codes "button") (text (codes "Download CSV"))
    & table (
        element (codes "thead") providers_head_html
        & element (codes "tbody") (each provider_row_html rows)))

abbrev pub filfox_html : Option Text → Html
filfox_html value = optional (λ address. anchor_of (address, codes "FilFox")) value

-- A row of the first table of routes/Provider.js; in that of "Links" the text is an address.
abbrev pub meta_row_html : Row → Html
meta_row_html (label, value) = row (
    cell_of label
    & cell 1 (if text_eq label (codes "Links") then filfox_html value else formatted value))

abbrev pub transfer_html : Transfer → Html
transfer_html t =
    element (codes "div")
      (element (codes "div") (formatted t.caption) & element (codes "div") (bar (percent t.width)))

abbrev pub error_html : Text → Html
error_html [] = blank
error_html (c ∷ t) = element (codes "pre") (text (c ∷ t))

-- A time or an epoch with its name.
abbrev pub timing_html : Text → Option Text → Html
timing_html name t = element (codes "div") (text name & formatted t)

abbrev pub deal_row_html : DealRow → Html
deal_row_html r = row (
    cell 1 (element (codes "abbr") (text r.uuid))
    & cell_of r.status
    & cell 1 (
        element (codes "div") (
          timing_html (codes "Proposed: ") r.proposed
          & timing_html (codes "Start: ") r.start
          & timing_html (codes "End: ") r.end_))
    & cell 1 (error_html r.error)
    & cell 1 (optional anchor_of r.deal)
    & cell 1 (optional transfer_html r.transferred)
    & cell 1 (optional anchor_of r.publish))

abbrev pub deals_head : List Text
deals_head =
    codes "UUID"
    ∷ codes "Status"
    ∷ codes "Timing"
    ∷ codes "Error"
    ∷ codes "Deal ID"
    ∷ codes "Transferred"
    ∷ codes "Publish CID"
    ∷ []

-- The page of a provider once there is a reply.
abbrev pub info_html : Dates → Number → Number → Text → ProviderInfo → Html
info_html dates now head_height provider_id info =
    element (codes "h2") (text (codes "Provider " ++ provider_id))
    & table (element (codes "tbody") (each meta_row_html (meta_rows provider_id info.meta)))
    & element (codes "h4") (text (codes "Recent Deals"))
    & table (
        element (codes "thead") (head_row deals_head)
        & element (codes "tbody") (each deal_row_html (deal_rows dates now head_height info)))

-- `Provider` of routes/Provider.js
abbrev pub provider_html : Dates → Number → Text → ProviderState → Html
provider_html dates now provider_id s =
    element (codes "div") (optional (info_html dates now s.head_height provider_id) s.provider)

error_html-IsPlain : (t : Text) → IsPlain (error_html t)
error_html-IsPlain [] = (refl, refl)
error_html-IsPlain (c ∷ t) = (refl, refl)

deal_row_html-IsPlain : (r : DealRow) → IsPlain (deal_row_html r)
deal_row_html-IsPlain r =
    let (el, et) = error_html-IsPlain r.error in
    let (dl, dt) = optional-IsPlain anchor_of r.deal (λ a. (refl, refl)) in
    let (tl, tt_) = optional-IsPlain transfer_html r.transferred (λ a. (refl, refl)) in
    let (pl, pt) = optional-IsPlain anchor_of r.publish (λ a. (refl, refl)) in
    (rw (el, dl, tl, pl) refl, rw (et, dt, tt_, pt) refl)

meta_row_html-IsPlain : (r : Row) → IsPlain (meta_row_html r)
meta_row_html-IsPlain (label, value) = elim (Bool-cases (text_eq label (codes "Links"))) [
  | inl e ↦ rw e (optional-IsPlain (λ a. anchor_of (a, codes "FilFox")) value (λ a. (refl, refl)))
  | inr e ↦ rw e (refl, refl)
]

-- The list links to each of its providers, with a row as wide as the head for each.
pub providers_html-links :
    (P : Text → Type 0) (dates : Dates) (now : Number) (i : ℕ) (ps : List Provider)
    → All (λ p. P (provider_link p)) ps
    → All P (links (each provider_row_html (provider_rows dates now i ps)))
unfolding provider_rows provider_row
providers_html-links P dates now i [] a = tt
providers_html-links P dates now i (p ∷ ps) (h, a) =
    (h, providers_html-links P dates now (suc i) ps a)

pub providers_html-tables : (rows : List ProviderRow) → All IsEven (tables (providers_html rows))
providers_html-tables rows =
    rw (tables-each provider_row_html rows (λ r. refl))
      (row_widths-each provider_row_html 10 rows (λ r. refl), tt)

info_html-plain :
    (dates : Dates) (now head_height : Number) (provider_id : Text) (info : ProviderInfo)
    → (links (info_html dates now head_height provider_id info) ≡ [])
      × All IsEven (tables (info_html dates now head_height provider_id info))
info_html-plain dates now head_height provider_id info =
    let meta = meta_rows provider_id info.meta in
    let deals = deal_rows dates now head_height info in
    let (ml, mt) = each-IsPlain meta_row_html meta meta_row_html-IsPlain in
    let (dl, dt) = each-IsPlain deal_row_html deals deal_row_html-IsPlain in
    (
      rw (ml, dl) refl,
      rw (mt, dt)
          (
            each-IsEven meta_row_html 2 meta (λ r. refl),
            (row_widths-each deal_row_html 7 deals (λ r. refl), tt),
          ),
    )

-- The page of a provider has no links of the app, and its two tables are even.
pub provider_html-plain :
    (dates : Dates) (now : Number) (provider_id : Text) (s : ProviderState)
    → (links (provider_html dates now provider_id s) ≡ [])
      × All IsEven (tables (provider_html dates now provider_id s))
provider_html-plain dates now provider_id s = elim (Option-cases s.provider) [
  | inl e ↦ rw e (refl, tt)
  | inr (info, e) ↦ rw e (info_html-plain dates now s.head_height provider_id info)
]
