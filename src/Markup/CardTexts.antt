-- ===== src/Markup/CardTexts.antt =====
-- The texts of formatters in the cards of groups and on the page of a group.
use ribs.Base.{
  ℕ, ◌<◌, not, ◌&&◌, ltb, Bool-cases, inl, inr, Option, none, some, List, [], map, Text, codes, All,
  All-append, All-map, arith,
}
use ribs.Number.Rounding.{significands}
use ribs.Number.Defs.{Number, of_ℕ, nan}
use ribs.Number.Exact.{whole, of_ℕ-whole}
use ribs.Number.Bounds.{of_ℕ-IsDouble, IsWithin-IsDouble}
use ribs.Status.Cells.{num, bytes, field}
use ribs.Fmt.Dates.{Dates}
use ribs.Fmt.Units.{format_bytes_binary}
use ribs.Fmt.Loops.{Returns, Returns-map, format_num-Returns, format_bytes_binary-Returns}
use ribs.Groups.Deals.{
  DealInfo, Retrieval, unknown, retrievable, unretrievable, Stage, past, running, erred, truthy,
}
use ribs.Groups.Polling.{Meta, GroupData}
use ribs.Groups.Views.{group_view, both}
use ribs.Groups.Rows.{DealView, Published, deal_view, timing, received}
use ribs.GroupPage.Page.{Page}
use ribs.GroupPage.View.{page_view}
use ribs.Markup.Groups.{page_bar_html, page_amounts_html}
use ribs.Markup.Html.{optional, each, texts}
use ribs.Markup.Texts.{
  Renders, optional-Renders, each-Renders, HasTimes, IsEpoch, epoch_to_date-Returns,
}
use ribs.Markup.Deals.{
  sealed_html, deal_id_html, published_html, data_html, received_html, stage_html, deal_html,
  progress_bar_html, amounts_html,
}

of_ℕ-bytes : (n : ℕ) → Returns (format_bytes_binary (of_ℕ n))
of_ℕ-bytes n = (format_bytes_binary-Returns (of_ℕ n) (of_ℕ-IsDouble n)).0

both-Returns :
    (between : Text) (a b : Option Text) → Returns a → Returns b → Returns (both between a b)
both-Returns between none b h k = h
both-Returns between (some a) b h k = Returns-map _ b k

sealed_html-Renders : (r : Retrieval) → Renders (sealed_html r)
sealed_html-Renders unknown = tt
sealed_html-Renders retrievable = tt
sealed_html-Renders unretrievable = tt

published_html-Renders : (p : Published) → Renders (published_html p)
published_html-Renders p = optional-Renders deal_id_html p.deal (λ a. tt)

stage_html-Renders : (s : Stage) → Renders (stage_html s)
stage_html-Renders past = tt
stage_html-Renders (running progress status sealing) = tt
stage_html-Renders (erred progress status error shortened) = tt

received-Renders : (d : DealInfo) → Renders (optional received_html (received d))
unfolding received
received-Renders d =
    elim (Bool-cases (ltb 0 d.bytes_recv && (not d.sealed && not (truthy d.pub_cid)))) [
      | inl e ↦
          rw e (both-Returns (codes " / ") _ _ (of_ℕ-bytes d.bytes_recv) (of_ℕ-bytes d.tx_size), tt)
      | inr e ↦ rw e tt
    ]

view-Renders :
    (v : DealView)
    → Returns v.timing
    → Renders (optional received_html v.received)
    → Renders (deal_html v)
view-Renders v t r =
    All-append Returns (texts (optional sealed_html v.sealed)) _
      (optional-Renders sealed_html v.sealed sealed_html-Renders)
      (
        t,
        All-append Returns (texts (optional published_html v.published)) _
            (optional-Renders published_html v.published published_html-Renders)
            (All-append Returns (texts (optional data_html v.data_link)) _
              (optional-Renders data_html v.data_link (λ a. tt))
              (All-append Returns (texts (optional received_html v.received)) _ r
                (stage_html-Renders v.stage))),
      )

module _ (dates : Dates) (times : HasTimes dates) (head_height : Number)
    (piece_cid data_cid : Text) where
  timing-Returns :
      (d : DealInfo) → IsEpoch d.end_epoch → Returns (timing dates head_height piece_cid data_cid d)
  unfolding timing
  timing-Returns d h = elim (Bool-cases d.sealed) [
    | inl e ↦
        rw (e, of_ℕ-whole d.end_epoch (omega arith))
          (Returns-map _ _ (epoch_to_date-Returns dates times d.end_epoch h))
    | inr e ↦ rw e tt
  ]

  pub deals_html-Renders :
      (ds : List DealInfo)
      → All (λ d. IsEpoch d.end_epoch) ds
      → Renders (each deal_html (map (deal_view dates head_height piece_cid data_cid) ds))
  unfolding deal_view
  deals_html-Renders ds a =
      each-Renders deal_html (map (deal_view dates head_height piece_cid data_cid) ds) (
        All-map (λ d. IsEpoch d.end_epoch) (λ v. Renders (deal_html v))
          (deal_view dates head_height piece_cid data_cid) ds
          (λ d h.
            view-Renders (deal_view dates head_height piece_cid data_cid d) (timing-Returns d h)
              (received-Renders d))
          a)

-- A number of a group is exact, once it is known.
abbrev pub IsExact : (Meta → ℕ) → Option Meta → Type 0
IsExact f none = Unit
IsExact f (some m) = f m < significands

num-Returns :
    (f : Meta → ℕ) (info : Option Meta)
    → IsExact f info
    → Returns (num (field (λ m. of_ℕ (f m)) info))
num-Returns f none h = format_num-Returns nan 0 tt (λ e. cc)
num-Returns f (some m) h =
    let (double, finite) = IsWithin-IsDouble (f m) h (whole (f m)) (omega arith) in
    rw (of_ℕ-whole (f m) h) (format_num-Returns (whole (f m)) 0 double finite)

bytes-Returns : (f : Meta → ℕ) (info : Option Meta) → Returns (bytes (field (λ m. of_ℕ (f m)) info))
bytes-Returns f none = (format_bytes_binary-Returns nan tt).0
bytes-Returns f (some m) = of_ℕ-bytes (f m)

-- The numbers of blocks are exact, and the deals end at epochs that a date has.
pub record IsDated (g : GroupData) : Type 0 where
  pub blocks : IsExact (λ m. m.blocks) g.info
  pub max_blocks : IsExact (λ m. m.max_blocks) g.info
  pub ends : All (λ d. IsEpoch d.end_epoch) g.deals

pub amounts_html-Renders : (g : GroupData) → IsDated g → Renders (amounts_html (group_view g))
unfolding group_view
amounts_html-Renders g h =
    let v = group_view g in
    (
      both-Returns (codes " / ") _ _ (num-Returns (λ m. m.blocks) g.info h.blocks)
          (num-Returns (λ m. m.max_blocks) g.info h.max_blocks),
      All-append Returns (texts (optional progress_bar_html v.blocks_bar)) _
          (optional-Renders progress_bar_html v.blocks_bar (λ w. tt))
          (
            both-Returns (codes " / ") _ _ (bytes-Returns (λ m. m.bytes) g.info)
                (bytes-Returns (λ m. m.max_bytes) g.info),
            All-append Returns (texts (optional progress_bar_html v.bytes_bar)) []
                (optional-Renders progress_bar_html v.bytes_bar (λ w. tt)) tt,
          ),
    )

pub page_amounts_html-Renders :
    (dates : Dates) (p : Page) → IsDated p.group → Renders (page_amounts_html (page_view dates p))
unfolding page_view
page_amounts_html-Renders dates p h =
    let v = page_view dates p in
    let info = p.group.info in
    (
      both-Returns (codes " / ") _ _ (num-Returns (λ m. m.blocks) info h.blocks)
          (num-Returns (λ m. m.max_blocks) info h.max_blocks),
      All-append Returns (texts (optional page_bar_html v.blocks_bar)) _
          (optional-Renders page_bar_html v.blocks_bar (λ w. tt))
          (
            both-Returns (codes " / ") _ _ (bytes-Returns (λ m. m.bytes) info)
                (bytes-Returns (λ m. m.max_bytes) info),
            All-append Returns (texts (optional page_bar_html v.bytes_bar)) []
                (optional-Renders page_bar_html v.bytes_bar (λ w. tt)) tt,
          ),
    )
