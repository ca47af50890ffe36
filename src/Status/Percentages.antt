-- ===== src/Status/Percentages.antt =====
-- The percentages of routes/Status.js: `getPercentage` and the progress of the crawl.
use ribs.Base.{ℕ, ◌≤◌, ◌<◌, ◌≡◌, true, arith, ==_ne, text_eq}
use ribs.Number.Exact.{whole, of_ℕ-whole, equal-whole}
use ribs.Number.Print.{to_fixed, point_text}
use ribs.Number.Percent.{percent-le, to_fixed-percent}
use ribs.Status.RetrievalTiles.{get_percentage}
use ribs.Status.DealTiles.{CrawlState, progress_bar_percentage, querying}

-- A share of a whole number that is not zero, in whole numbers and up to it, is shown in hundredths
-- of a percent, from 0 to 100.
pub get_percentage-range :
    (v t : ℕ)
    → 0 < t
    → v ≤ t
    → (q : ℕ) × (q ≤ 10000) × (get_percentage (whole v) (whole t) ≡ point_text 2 q)
unfolding get_percentage
get_percentage-range v t pos h =
    let (w, le, e) = percent-le v t pos h in
    let (q, le', shown) = to_fixed-percent w le in
    (q, le', rw (of_ℕ-whole 0 (omega arith), equal-whole t 0, ==_ne t 0 (omega arith), e) shown)

-- So is the progress of a crawl that queries providers, up to their total.
pub progress-range :
    (s : CrawlState) (v t : ℕ)
    → text_eq s.state querying ≡ true
    → s.at ≡ whole v
    → s.total ≡ whole t
    → 0 < t
    → v ≤ t
    → (q : ℕ) × (q ≤ 10000) × (to_fixed 2 (progress_bar_percentage s) ≡ point_text 2 q)
unfolding progress_bar_percentage
progress-range s v t asked at total pos h =
    let (w, le, e) = percent-le v t pos h in
    let (q, le', shown) = to_fixed-percent w le in (q, le', rw (asked, at, total, e) shown)
