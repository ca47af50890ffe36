-- ===== src/Status/DealTiles.antt =====
-- The tables of `DealsTile`, `ProvidersTile`, `CarUploadStatsTile` and `CrawlStateTile`
-- (routes/Status.js).
use mathlib.Core.Option
use ribs.Base.{
  ℕ, Bool, ◌||◌, Option, some, List, [], ◌∷◌, ◌++◌, map, Text, codes, text_eq, keep, length,
  if◌then◌else◌,
}
use ribs.Number.Defs.{truthy_number, Number, of_ℕ, add, mul, div, or_nan}
use ribs.Number.Print.{to_text, to_fixed}
use ribs.Fmt.Units.{format_bits_binary}
use ribs.Providers.Page.{Provider}
use ribs.Status.Cells.{Row, plain, bytes, field}
use ribs.Status.Upload.{UploadShown, UploadTile}

-- The prop `dealSummary`; before the first reply it is `{}`.
pub record DealSummary : Type 0 where
  pub in_progress : Number
  pub done : Number
  pub failed : Number
  pub total_data_size : Number
  pub total_deal_size : Number
  pub stored_data_size : Number
  pub stored_deal_size : Number

-- `dealSummary.InProgress + dealSummary.Done`, NaN before the first reply.
unfoldable pub deals_heading : Option DealSummary → Text
deals_heading s =
    codes "Deals: "
    ++ to_text (add (or_nan (field (λ r. r.in_progress) s)) (or_nan (field (λ r. r.done) s)))

unfoldable pub deals_rows : Option DealSummary → List Row
deals_rows s =
    (codes "Total data size:", bytes (field (λ r. r.total_data_size) s))
    ∷ (codes "Total deal size:", bytes (field (λ r. r.total_deal_size) s))
    ∷ (codes "Stored data size:", bytes (field (λ r. r.stored_data_size) s))
    ∷ (codes "Stored deal size:", bytes (field (λ r. r.stored_deal_size) s))
    ∷ (codes "Deals in progress:", plain (field (λ r. r.in_progress) s))
    ∷ (codes "Deals done:", plain (field (λ r. r.done) s))
    ∷ (codes "Deals failed:", plain (field (λ r. r.failed) s))
    ∷ []

-- How many providers pass; nothing for a null reply, whose `filter` and `length` throw.
abbrev pub count_of : (Provider → Bool) → Option (List Provider) → Option Text
count_of p reachable_providers =
    Option.map (λ ps. to_text (of_ℕ (length (keep p ps)))) reachable_providers

-- The prop `reachableProviders` is none for a null reply.
unfoldable pub providers_rows : Option (List Provider) → List Row
providers_rows ps =
    (codes "Reachable Providers:", Option.map (λ ps. to_text (of_ℕ (length ps))) ps)
    ∷ (codes "With booster-bitswap:", count_of (λ p. p.booster_bitswap) ps)
    ∷ (codes "With booster-http:", count_of (λ p. p.booster_http) ps)
    ∷ (codes "With attempted deals:", count_of (λ p. truthy_number p.deal_started) ps)
    ∷ (codes "With successful deals:", count_of (λ p. truthy_number p.deal_success) ps)
    ∷ (codes "With all rejected deals:", count_of (λ p. truthy_number p.deal_rejected) ps)
    ∷ []

-- A line of the upload table: group, requests and rate.
abbrev pub UploadRow : Type 0
UploadRow = Text × Text × Option Text

abbrev pub upload_row : ℕ × UploadShown → UploadRow
upload_row (key, shown) = (
  codes "Group " ++ to_text (of_ℕ key),
  to_text shown.stats.active_requests,
  format_bits_binary shown.upload_rate,
)

unfoldable pub upload_rows : UploadTile → List UploadRow
upload_rows s =
    (codes "Global", [], format_bits_binary s.global_rate) ∷ map upload_row s.display_stats

-- The prop `crawlState`, from the first reply on.
pub record CrawlState : Type 0 where
  pub state : Text
  pub at : Number
  pub total : Number
  pub reachable : Number
  pub boost : Number
  pub bb_swap : Number
  pub b_http : Number

abbrev pub querying : Text
querying = codes "querying providers"

unfoldable pub progress_bar_percentage : CrawlState → Number
progress_bar_percentage s =
    if text_eq s.state querying then mul (div s.at s.total) (of_ℕ 100) else of_ℕ 0

unfoldable pub show_at : CrawlState → Bool
show_at s = text_eq (codes "listing market participants") s.state || text_eq querying s.state

-- The bar's width stands between the row of the progress and the row of the total.
unfoldable pub crawl_rows : CrawlState → List Row
unfolding show_at progress_bar_percentage
crawl_rows s =
    (codes "State:", some s.state)
    ∷ ((if show_at s then (codes "At:", plain (some s.at)) ∷ [] else [])
        ++ (if text_eq s.state querying
            then ((codes "Progress:", some (to_fixed 2 (progress_bar_percentage s) ++ codes "%"))
                ∷ ([], some (to_text (progress_bar_percentage s) ++ codes "%"))
                ∷ (codes "Total:", plain (some s.total))
                ∷ (codes "Reachable:", plain (some s.reachable))
                ∷ (codes "Boost:", plain (some s.boost))
                ∷ (codes "BBswap:", plain (some s.bb_swap))
                ∷ (codes "BHttp:", plain (some s.b_http))
                ∷ [])
            else []))
