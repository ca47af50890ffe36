-- ===== src/Markup/Status.antt =====
-- The markup of `Status` in routes/Status.js, whose sections and tiles are those of Polling/Effects.antt.
use ribs.Base.{
  refl, Option, List, [], ◌∷◌, Text, codes, text_eq, if◌then◌else◌, All-append, Bool-cases, inl,
  inr,
}
use ribs.Number.Defs.{Number}
use ribs.Polling.Effects.{
  Tile, groups_tile, io_stats, top_index_tile, deals_tile, deal_counts_chart, providers_tile,
  car_upload_stats_tile, crawl_state_tile, wallet_info_tile, retr_stats, staging_stats,
  retr_checker_stats, repair_retrievals, p2p_nodes, go_runtime_stats, worker_stats, status_view,
}
use ribs.Providers.Page.{Provider}
use ribs.Status.Cells.{Row}
use ribs.Status.Meter.{TopIndexTile, IoTile, StagingTile}
use ribs.Status.StorageTiles.{GroupStats, groups_rows, io_rows, top_index_rows}
use ribs.Status.DealTiles.{
  DealSummary, CrawlState, deals_heading, deals_rows, providers_rows, upload_rows, crawl_rows,
}
use ribs.Status.RetrievalTiles.{
  RetrStats, CheckerStats, retr_rows, staging_rows, checker_rows, repair_retrieval_rows,
}
use ribs.Status.InternalTiles.{
  NodeInfo, RuntimeStats, Workers, node_rows, runtime_rows, worker_rows,
}
use ribs.Status.Upload.{UploadTile}
use ribs.Status.Wallet
use ribs.Status.WalletTable.{WalletInfo, wallet_table}
use ribs.Markup.Html.{Html, text, element, ◌&◌, each, tables, IsEven}
use ribs.Markup.Tiles.{
  row_html, bold, tile_of, upload_html, node_row_html, wallet_html, chart_html, IsTile,
  tile_of-IsTile, upload_html-IsTile, nodes_html-IsTile, wallet_html-IsTile,
}

-- What the tiles hold. The state of the crawler and the counts of the checker are those of a reply;
-- the providers are none after a null reply, for which the page throws.
pub record StatusState : Type 0 where
  pub group_stats : Option GroupStats
  pub io : IoTile
  pub top_index : TopIndexTile
  pub deal_summary : Option DealSummary
  pub reachable_providers : Option (List Provider)
  pub upload : UploadTile
  pub crawl_state : CrawlState
  pub wallet_info : Option WalletInfo
  pub wallet : Wallet.Tile
  pub retrievals : Option RetrStats
  pub staging : StagingTile
  pub retr_checker : CheckerStats
  pub nodes : List (Text × NodeInfo)
  pub runtime : Option RuntimeStats
  pub gc_pause_ema : Number
  pub workers : Workers
  pub comm_p_rate : Number

-- A tile of labels and values.
abbrev pub plain_tile : Text → List Row → Html
plain_tile heading rows = tile_of heading (each (row_html text) rows)

-- `GroupsTile`
abbrev pub groups_tile_html : Option GroupStats → Html
groups_tile_html stats = plain_tile (codes "Data Stats") (groups_rows stats)

-- `IoStats`
abbrev pub io_stats_html : IoTile → Html
io_stats_html tile = plain_tile (codes "IO Stats") (io_rows tile)

-- `TopIndexTile`
abbrev pub top_index_tile_html : TopIndexTile → Html
top_index_tile_html tile = plain_tile (codes "Top Index") (top_index_rows tile)

-- `DealsTile`
abbrev pub deals_tile_html : Option DealSummary → Html
deals_tile_html summary = plain_tile (deals_heading summary) (deals_rows summary)

-- `ProvidersTile`
abbrev pub providers_tile_html : Option (List Provider) → Html
providers_tile_html reachable_providers =
    plain_tile (codes "Providers") (providers_rows reachable_providers)

-- `CrawlStateTile`
abbrev pub crawl_state_tile_html : CrawlState → Html
crawl_state_tile_html state =
    tile_of (codes "Crawl State") (each (row_html bold) (crawl_rows state))

-- `RetrStats`
abbrev pub retr_stats_html : Option RetrStats → Html
retr_stats_html stats = plain_tile (codes "Retrieval Stats") (retr_rows stats)

-- `StagingStats`
abbrev pub staging_stats_html : StagingTile → Html
staging_stats_html tile = plain_tile (codes "Staging Stats") (staging_rows tile)

-- `RetrCheckerStats`
abbrev pub retr_checker_stats_html : CheckerStats → Html
retr_checker_stats_html stats = plain_tile (codes "Retrieval Checker") (checker_rows stats)

-- `P2PNodes`
abbrev pub p2p_nodes_html : List (Text × NodeInfo) → Html
p2p_nodes_html nodes = tile_of (codes "LibP2P Nodes") (each node_row_html (node_rows nodes))

-- `RepairRetrievals`
abbrev pub repair_retrievals_html : Html
repair_retrievals_html = plain_tile (codes "Repair Retrievals") repair_retrieval_rows

-- `GoRuntimeStats`
abbrev pub go_runtime_stats_html : Option RuntimeStats → Number → Html
go_runtime_stats_html stats gc_pause_ema =
    plain_tile (codes "Go Runtime Stats") (runtime_rows stats gc_pause_ema)

-- `WorkerStats`
abbrev pub worker_stats_html : Workers → Number → Html
worker_stats_html stats comm_p_rate =
    plain_tile (codes "Worker Stats") (worker_rows stats comm_p_rate)

-- A tile with what it holds.
abbrev pub tile_html : StatusState → Tile → Html
tile_html s groups_tile = groups_tile_html s.group_stats
tile_html s io_stats = io_stats_html s.io
tile_html s top_index_tile = top_index_tile_html s.top_index
tile_html s deals_tile = deals_tile_html s.deal_summary
tile_html s deal_counts_chart = chart_html
tile_html s providers_tile = providers_tile_html s.reachable_providers
tile_html s car_upload_stats_tile = upload_html (upload_rows s.upload)
tile_html s crawl_state_tile = crawl_state_tile_html s.crawl_state
tile_html s wallet_info_tile = wallet_html (wallet_table s.wallet_info s.wallet)
tile_html s retr_stats = retr_stats_html s.retrievals
tile_html s staging_stats = staging_stats_html s.staging
tile_html s retr_checker_stats = retr_checker_stats_html s.retr_checker
tile_html s repair_retrievals = repair_retrievals_html
tile_html s p2p_nodes = p2p_nodes_html s.nodes
tile_html s go_runtime_stats = go_runtime_stats_html s.runtime s.gc_pause_ema
tile_html s worker_stats = worker_stats_html s.workers s.comm_p_rate

-- The heading of a section.
abbrev pub section_heading : Text → Html
section_heading heading =
    element (codes "h1") (
      if text_eq heading (codes "DSN") then element (codes "abbr") (text heading) else text heading)

abbrev pub section_html : StatusState → Text × List Tile → Html
section_html s (heading, tiles) =
    section_heading heading & element (codes "div") (each (tile_html s) tiles)

-- `Status`
abbrev pub status_html : StatusState → Html
status_html s = element (codes "div") (element (codes "div") (each (section_html s) status_view))

plain_tile-IsTile : (heading : Text) (rows : List Row) → IsTile (plain_tile heading rows)
plain_tile-IsTile heading rows = tile_of-IsTile heading text (λ t. (refl, refl)) rows

tile_html-IsTile : (s : StatusState) (t : Tile) → IsTile (tile_html s t)
tile_html-IsTile s groups_tile = plain_tile-IsTile (codes "Data Stats") (groups_rows s.group_stats)
tile_html-IsTile s io_stats = plain_tile-IsTile (codes "IO Stats") (io_rows s.io)
tile_html-IsTile s top_index_tile =
    plain_tile-IsTile (codes "Top Index") (top_index_rows s.top_index)
tile_html-IsTile s deals_tile =
    plain_tile-IsTile (deals_heading s.deal_summary) (deals_rows s.deal_summary)
tile_html-IsTile s deal_counts_chart = (refl, tt)
tile_html-IsTile s providers_tile =
    plain_tile-IsTile (codes "Providers") (providers_rows s.reachable_providers)
tile_html-IsTile s car_upload_stats_tile = upload_html-IsTile (upload_rows s.upload)
tile_html-IsTile s crawl_state_tile =
    tile_of-IsTile (codes "Crawl State") bold (λ t. (refl, refl)) (crawl_rows s.crawl_state)
tile_html-IsTile s wallet_info_tile = wallet_html-IsTile (wallet_table s.wallet_info s.wallet)
tile_html-IsTile s retr_stats = plain_tile-IsTile (codes "Retrieval Stats") (retr_rows s.retrievals)
tile_html-IsTile s staging_stats =
    plain_tile-IsTile (codes "Staging Stats") (staging_rows s.staging)
tile_html-IsTile s retr_checker_stats =
    plain_tile-IsTile (codes "Retrieval Checker") (checker_rows s.retr_checker)
tile_html-IsTile s repair_retrievals =
    plain_tile-IsTile (codes "Repair Retrievals") repair_retrieval_rows
tile_html-IsTile s p2p_nodes = nodes_html-IsTile (codes "LibP2P Nodes") (node_rows s.nodes)
tile_html-IsTile s go_runtime_stats =
    plain_tile-IsTile (codes "Go Runtime Stats") (runtime_rows s.runtime s.gc_pause_ema)
tile_html-IsTile s worker_stats =
    plain_tile-IsTile (codes "Worker Stats") (worker_rows s.workers s.comm_p_rate)

-- Pieces without links and with even tables, one after another.
&-IsTile : (a b : Html) → IsTile a → IsTile b → IsTile (a & b)
&-IsTile a b (l, t) (m, u) = (rw (l, m) refl, All-append IsEven (tables a) (tables b) t u)

each-IsTile {ℓ} :
    {A : Type ℓ} (f : A → Html) (xs : List A) → ((a : A) → IsTile (f a)) → IsTile (each f xs)
each-IsTile f [] h = (refl, tt)
each-IsTile f (x ∷ xs) h = &-IsTile (f x) (each f xs) (h x) (each-IsTile f xs h)

section_heading-IsTile : (heading : Text) → IsTile (section_heading heading)
section_heading-IsTile heading = elim (Bool-cases (text_eq heading (codes "DSN"))) [
  | inl e ↦ rw e (refl, tt)
  | inr e ↦ rw e (refl, tt)
]

-- The page has no links of the app, and its tables are even.
pub status_html-IsTile : (s : StatusState) → IsTile (status_html s)
status_html-IsTile s = each-IsTile (section_html s) status_view (λ v.
    &-IsTile (section_heading v.0) (each (tile_html s) v.1) (section_heading-IsTile v.0)
      (each-IsTile (tile_html s) v.1 (tile_html-IsTile s)))
