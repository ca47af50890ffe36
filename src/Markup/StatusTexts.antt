-- ===== src/Markup/StatusTexts.antt =====
-- The texts of formatters on the status page.
use ribs.Base.{
  ℕ, ◌*◌, ◌<◌, ◌≡◌, ◌≢◌, inl, inr, Bool, true, false, if◌then◌else◌, text_eq, Bool-cases, Option,
  none, some, List, [], ◌∷◌, map, Text, codes, All, All-append, All_of,
}
use ribs.Number.Rounding.{significands}
use ribs.Number.Defs.{Number, inf, of_ℕ, mul}
use ribs.Number.Bounds.{IsDouble}
use ribs.Fmt.Loops.{Returns, Returns-map, format_bytes_binary-Returns, format_bits_binary-Returns}
use ribs.Status.Cells.{Row}
use ribs.Status.Meter.{
  StagingStats, IoCounters, TopIndexStats, polls, staging_reply, staging_start, io_reply, io_start,
  top_index_reply, top_index_start,
}
use ribs.Status.StorageTiles.{groups_rows, io_rows, top_index_rows}
use ribs.Status.DealTiles.{
  CrawlState, deals_rows, providers_rows, upload_rows, upload_row, crawl_rows, show_at, querying,
}
use ribs.Status.RetrievalTiles.{
  CheckerStats, retr_rows, staging_rows, checker_rows, repair_retrieval_rows,
}
use ribs.Status.InternalTiles.{Workers, node_rows, runtime_rows, worker_rows}
use ribs.Status.Upload.{UploadTile, UploadShown}
use ribs.Status.WalletTable.{WalletTable, wallet_table}
use ribs.Status.Rendering.{Shows, IsReply}
use ribs.Status.Rates.{answered}
use ribs.Status.Tables.{IsIoReply, IsIndexReply, tables-Shows}
use ribs.Status.Replies.{AreFinite, of_groups, of_deals, of_retrievals, of_runtime, replies-Shows}
use ribs.Providers.Page.{Provider}
use ribs.Polling.Effects.{
  Tile, groups_tile, io_stats, top_index_tile, deals_tile, deal_counts_chart, providers_tile,
  car_upload_stats_tile, crawl_state_tile, wallet_info_tile, retr_stats, staging_stats,
  retr_checker_stats, repair_retrievals, p2p_nodes, go_runtime_stats, worker_stats, status_view,
}
use ribs.Markup.Html.{Html, text, element, ◌&◌, each, optional, texts}
use ribs.Markup.Texts.{Renders, &-Renders, optional-Renders, each-Renders}
use ribs.Markup.Tiles.{
  row_html, bold, upload_row_html, node_row_html, menu_html, wallet_link_html, wallet_html,
}
use ribs.Markup.Status.{StatusState, tile_html, section_heading, section_html, status_html}

rows-Renders :
    (label_html : Text → Html)
    → ((t : Text) → Renders (label_html t))
    → (rows : List Row) → Shows rows
    → Renders (each (row_html label_html) rows)
rows-Renders label_html h [] a = tt
rows-Renders label_html h (([], value) ∷ rows) (r, a) =
    &-Renders (row_html label_html ([], value)) (each (row_html label_html) rows)
      (optional-Renders ribs.Markup.Html.bar value (λ t. tt)) (rows-Renders label_html h rows a)
rows-Renders label_html h ((c ∷ label, value) ∷ rows) (r, a) =
    &-Renders (row_html label_html (c ∷ label, value)) (each (row_html label_html) rows)
      (All-append Returns (texts (label_html (c ∷ label))) (value ∷ []) (h (c ∷ label)) (r, tt))
      (rows-Renders label_html h rows a)

plain-Renders : (rows : List Row) → Shows rows → Renders (each (row_html text) rows)
plain-Renders rows a = rows-Renders text (λ t. tt) rows a

providers-Shows :
    (o : Option (List Provider)) (ps : List Provider) → o ≡ some ps → Shows (providers_rows o)
unfolding providers_rows
providers-Shows o ps e = rw e (tt, (tt, (tt, (tt, (tt, (tt, tt))))))

if-Shows : (b : Bool) (rows : List Row) → Shows rows → Shows (if b then rows else [])
if-Shows true rows a = a
if-Shows false rows a = tt

crawl-Shows : (s : CrawlState) → Shows (crawl_rows s)
unfolding crawl_rows
crawl-Shows s = (
  tt,
  All-append (λ r. Returns r.1) _ _ (if-Shows (show_at s) _ (tt, tt))
      (if-Shows (text_eq s.state querying) _ (tt, (tt, (tt, (tt, (tt, (tt, (tt, tt)))))))),
)

checker-Shows : (s : CheckerStats) → Shows (checker_rows s)
unfolding checker_rows
checker-Shows s = (tt, (tt, (tt, (tt, (tt, (tt, tt))))))

workers-Shows : (s : Workers) (rate : Number) → IsDouble rate → Shows (worker_rows s rate)
unfolding worker_rows
workers-Shows s rate h =
    (tt, (tt, (tt, (tt, (tt, (Returns-map _ _ (format_bytes_binary-Returns rate h).0, tt))))))

upload_groups-Renders :
    (shown : List (ℕ × UploadShown)) → Renders (each upload_row_html (map upload_row shown))
upload_groups-Renders [] = tt
upload_groups-Renders ((key, u) ∷ shown) =
    (format_bits_binary-Returns u.upload_rate, upload_groups-Renders shown)

upload-Renders : (s : UploadTile) → Renders (each upload_row_html (upload_rows s))
unfolding upload_rows
upload-Renders s = (format_bits_binary-Returns s.global_rate, upload_groups-Renders s.display_stats)

wallet-Renders : (w : Option WalletTable) → Renders (wallet_html w)
wallet-Renders none = tt
wallet-Renders (some w) =
    All-append Returns (texts (each wallet_link_html w.links)) _
      (each-Renders wallet_link_html w.links (All_of _ w.links (λ a. tt)))
      (All-append Returns (texts (optional menu_html w.menu)) []
        (optional-Renders menu_html w.menu (λ m. tt)) tt)

section_heading-Renders : (heading : Text) → Renders (section_heading heading)
section_heading-Renders heading = elim (Bool-cases (text_eq heading (codes "DSN"))) [
  | inl e ↦ rw e tt
  | inr e ↦ rw e tt
]

-- What the tiles hold after any polls of the node: counters of whole numbers up to a bound for the
-- rates, finite numbers otherwise, a share of pauses that does not overflow, and providers that are
-- not null.
pub record IsStatusShown (s : StatusState) : Type 0 where
  pub n : ℕ
  pub n_lt : 16 * n < significands
  pub staging_replies : List (Option StagingStats)
  pub io_replies : List (Option IoCounters)
  pub index_replies : List (Option TopIndexStats)
  pub staging_counts : All (IsReply n n_lt) (answered staging_replies)
  pub io_counts : All (IsIoReply n n_lt) (answered io_replies)
  pub index_counts : All (IsIndexReply n n_lt) (answered index_replies)
  pub staging : s.staging ≡ polls staging_reply staging_start staging_replies
  pub io : s.io ≡ polls io_reply io_start io_replies
  pub top_index : s.top_index ≡ polls top_index_reply top_index_start index_replies
  pub group_stats : AreFinite of_groups s.group_stats
  pub deal_summary : AreFinite of_deals s.deal_summary
  pub retrievals : AreFinite of_retrievals s.retrievals
  pub runtime : AreFinite of_runtime s.runtime
  pub pauses : mul s.gc_pause_ema (of_ℕ 100) ≢ inf false
  pub providers : List Provider
  pub reachable_providers : s.reachable_providers ≡ some providers
  pub comm_p_rate : IsDouble s.comm_p_rate

module _ (s : StatusState) (h : IsStatusShown s) where
  polled :
      Shows (staging_rows s.staging) × Shows (io_rows s.io) × Shows (top_index_rows s.top_index)
  polled =
      rw (h.staging, h.io, h.top_index)
        (tables-Shows h.n h.n_lt h.staging_replies h.io_replies h.index_replies h.staging_counts
          h.io_counts h.index_counts)

  replied :
      Shows (groups_rows s.group_stats)
      × Shows (deals_rows s.deal_summary)
      × Shows (retr_rows s.retrievals)
      × Shows (runtime_rows s.runtime s.gc_pause_ema)
  replied =
      let (g, d, r, t) =
        replies-Shows s.group_stats s.deal_summary s.retrievals s.runtime s.gc_pause_ema
          h.group_stats h.deal_summary h.retrievals h.runtime in
      (g, d, r, elim t [ inl e ↦ absurd (h.pauses e) | inr shows ↦ shows ])

  tile_html-Renders : (t : Tile) → Renders (tile_html s t)
  unfolding node_rows
  tile_html-Renders groups_tile = plain-Renders (groups_rows s.group_stats) replied.0
  tile_html-Renders io_stats = plain-Renders (io_rows s.io) polled.1
  tile_html-Renders top_index_tile = plain-Renders (top_index_rows s.top_index) polled.2
  tile_html-Renders deals_tile = plain-Renders (deals_rows s.deal_summary) replied.1
  tile_html-Renders deal_counts_chart = tt
  tile_html-Renders providers_tile =
      plain-Renders (providers_rows s.reachable_providers)
        (providers-Shows s.reachable_providers h.providers h.reachable_providers)
  tile_html-Renders car_upload_stats_tile = upload-Renders s.upload
  tile_html-Renders crawl_state_tile =
      rows-Renders bold (λ t. tt) (crawl_rows s.crawl_state) (crawl-Shows s.crawl_state)
  tile_html-Renders wallet_info_tile = wallet-Renders (wallet_table s.wallet_info s.wallet)
  tile_html-Renders retr_stats = plain-Renders (retr_rows s.retrievals) replied.2
  tile_html-Renders staging_stats = plain-Renders (staging_rows s.staging) polled.0
  tile_html-Renders retr_checker_stats =
      plain-Renders (checker_rows s.retr_checker) (checker-Shows s.retr_checker)
  tile_html-Renders repair_retrievals = plain-Renders repair_retrieval_rows (tt, (tt, (tt, tt)))
  tile_html-Renders p2p_nodes =
      each-Renders node_row_html (node_rows s.nodes) (All_of _ (node_rows s.nodes) (λ n. tt))
  tile_html-Renders go_runtime_stats =
      plain-Renders (runtime_rows s.runtime s.gc_pause_ema) replied.3
  tile_html-Renders worker_stats =
      plain-Renders (worker_rows s.workers s.comm_p_rate)
        (workers-Shows s.workers s.comm_p_rate h.comm_p_rate)

  pub status_html-Renders : Renders (status_html s)
  status_html-Renders = each-Renders (section_html s) status_view (
      All_of _ status_view (λ v.
        &-Renders (section_heading v.0) (each (tile_html s) v.1) (section_heading-Renders v.0)
          (each-Renders (tile_html s) v.1 (All_of _ v.1 tile_html-Renders))))
