-- ===== src/Markup/Deals.antt =====
-- The markup of `Deal` and of `Group` in routes/Groups.js, with the texts of Groups/Rows.antt and
-- Groups/Views.antt.
use ribs.Base.{ℕ, ◌≡◌, refl, Option, [], ◌∷◌, ◌++◌, map, Text, codes}
use ribs.Number.Defs.{Number}
use ribs.Groups.Deals.{Retrieval, unknown, retrievable, unretrievable, Stage, past, running, erred}
use ribs.Groups.Rows.{DealView, Published}
use ribs.Groups.Views.{GroupView, group_link}
use ribs.Groups.Page.{CardView}
use ribs.Markup.Html.{
  Html, blank, text, formatted, element, link, bar, ◌&◌, optional, each, anchor_of, links, tables,
  percent, IsPlain, optional-IsPlain, links-each, tables-each,
}

abbrev pub retrieval_html : Retrieval → Html
retrieval_html unknown = blank
retrieval_html retrievable = element (codes "i") (text (codes "RETRIEVABLE"))
retrieval_html unretrievable = element (codes "span") (text (codes "unretrievable"))

abbrev pub sealed_html : Retrieval → Html
sealed_html r =
    element (codes "strong") (text (codes " SEALED")) & text (codes " ") & retrieval_html r

abbrev pub deal_id_html : Text × Text → Html
deal_id_html a = element (codes "span") (text (codes " ") & anchor_of a)

abbrev pub published_html : Published → Html
published_html p =
    element (codes "span")
      (text (codes "Deal: ") & anchor_of p.message & optional deal_id_html p.deal)

abbrev pub data_html : Text → Html
data_html address = element (codes "span") (anchor_of (address, codes "[dagparts ipld]"))

abbrev pub received_html : Option Text × Number → Html
received_html (caption, width) =
    element (codes "span") (formatted caption) & element (codes "div") (bar (percent width))

abbrev pub stage_html : Stage → Html
stage_html past = blank
stage_html (running progress status sealing) =
    element (codes "span") (text (status ++ (codes " " ++ sealing)))
stage_html (erred progress status error shortened) =
    element (codes "span")
      (text (codes "Error (" ++ (status ++ codes ") ")) & element (codes "abbr") (text shortened))

-- `Deal`
abbrev pub deal_html : DealView → Html
deal_html v = element (codes "div") (
    element (codes "span") (
      element (codes "abbr") (text v.uuid)
      & link v.provider.0 (text v.provider.1)
      & optional sealed_html v.sealed)
    & element (codes "span") (formatted v.timing)
    & optional published_html v.published
    & optional data_html v.data_link
    & optional received_html v.received
    & stage_html v.stage)

-- The element of `renderProgressBar`.
abbrev pub progress_bar_html : Number → Html
progress_bar_html width = element (codes "div") (bar (percent width))

-- The blocks and the bytes of a group with their bars, and the counts of its deals.
abbrev pub amounts_html : GroupView → Html
amounts_html v =
    element (codes "p") (text (codes "Blocks: ") & formatted v.blocks)
    & optional progress_bar_html v.blocks_bar
    & element (codes "p") (text (codes "Bytes: ") & formatted v.bytes)
    & optional progress_bar_html v.bytes_bar
    & element (codes "div") (text v.counts)

abbrev pub toggle_html : Text → Html
toggle_html label = element (codes "button") (text label)

-- `Group` with its prop `groupKey`.
abbrev pub card_html : ℕ → CardView → Html
card_html group_key v = element (codes "div") (
    element (codes "div") (
      element (codes "h3") (text v.group.heading & element (codes "span") (text v.group.state))
      & amounts_html v.group
      & optional toggle_html v.toggle
      & link (group_link group_key) (element (codes "button") (text (codes "More"))))
    & each deal_html v.deals)

retrieval_html-IsPlain : (r : Retrieval) → IsPlain (retrieval_html r)
retrieval_html-IsPlain unknown = (refl, refl)
retrieval_html-IsPlain retrievable = (refl, refl)
retrieval_html-IsPlain unretrievable = (refl, refl)

published_html-IsPlain : (p : Published) → IsPlain (published_html p)
published_html-IsPlain p = optional-IsPlain deal_id_html p.deal (λ a. (refl, refl))

stage_html-IsPlain : (s : Stage) → IsPlain (stage_html s)
stage_html-IsPlain past = (refl, refl)
stage_html-IsPlain (running progress status sealing) = (refl, refl)
stage_html-IsPlain (erred progress status error shortened) = (refl, refl)

-- A deal links to its provider alone, and has no table.
pub deal_html-links :
    (v : DealView) → (links (deal_html v) ≡ v.provider.0 ∷ []) × (tables (deal_html v) ≡ [])
deal_html-links v =
    let (sl, st) = optional-IsPlain sealed_html v.sealed retrieval_html-IsPlain in
    let (pl, pt) = optional-IsPlain published_html v.published published_html-IsPlain in
    let (dl, dt) = optional-IsPlain data_html v.data_link (λ a. (refl, refl)) in
    let (rl, rt) = optional-IsPlain received_html v.received (λ a. (refl, refl)) in
    let (gl, gt) = stage_html-IsPlain v.stage in
    (rw (sl, pl, dl, rl, gl) refl, rw (st, pt, dt, rt, gt) refl)

pub amounts_html-IsPlain : (v : GroupView) → IsPlain (amounts_html v)
amounts_html-IsPlain v =
    let (cl, ct) = optional-IsPlain progress_bar_html v.blocks_bar (λ a. (refl, refl)) in
    let (bl, bt) = optional-IsPlain progress_bar_html v.bytes_bar (λ a. (refl, refl)) in
    (rw (cl, bl) refl, rw (ct, bt) refl)

-- A card links to the page of its group and to the providers of the deals that it shows.
pub card_html-links :
    (key : ℕ) (v : CardView)
    → (links (card_html key v) ≡ group_link key ∷ map (λ d. d.provider.0) v.deals)
      × (tables (card_html key v) ≡ [])
card_html-links key v =
    let (al, at) = amounts_html-IsPlain v.group in
    let (tl, tt_) = optional-IsPlain toggle_html v.toggle (λ a. (refl, refl)) in
    let dl = links-each deal_html (λ d. d.provider.0) v.deals (λ d. (deal_html-links d).0) in
    let dt = tables-each deal_html v.deals (λ d. (deal_html-links d).1) in
    (rw (al, tl, dl) refl, rw (at, tt_, dt) refl)
