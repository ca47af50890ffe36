-- ===== src/Status/RetrievalTiles.antt =====
-- The tables of `RetrStats`, `StagingStats`, `RetrCheckerStats` and `RepairRetrievals` (routes/Status.js).
use ribs.Base.{Option, some, List, [], ◌∷◌, ◌++◌, Text, codes, if◌then◌else◌}
use ribs.Number.Defs.{Number, of_ℕ, add, sub, mul, div, lt, equal, or_nan, round}
use ribs.Number.Print.{to_text, to_fixed}
use ribs.Status.Cells.{Row, followed_by, num, bytes, field}
use ribs.Status.Meter.{StagingTile}

-- The prop `retrStats`.
pub record RetrStats : Type 0 where
  pub success : Number
  pub bytes : Number
  pub fail : Number
  pub cache_hit : Number
  pub cache_miss : Number
  pub active : Number
  pub http_tries : Number
  pub http_success : Number
  pub http_bytes : Number

unfoldable pub retr_rows : Option RetrStats → List Row
retr_rows s =
    (codes "Success:", num (field (λ r. r.success) s))
    ∷ (codes "Bytes:", bytes (field (λ r. r.bytes) s))
    ∷ (codes "Fail:", num (field (λ r. r.fail) s))
    ∷ (codes "Cache Hit:", num (field (λ r. r.cache_hit) s))
    ∷ (codes "Cache Miss:", num (field (λ r. r.cache_miss) s))
    ∷ (codes "Active Retrievals:", num (field (λ r. r.active) s))
    ∷ (codes "HTTP Tries:", num (field (λ r. r.http_tries) s))
    ∷ (codes "HTTP Success:", num (field (λ r. r.http_success) s))
    ∷ (codes "HTTP Bytes:", bytes (field (λ r. r.http_bytes) s))
    ∷ []

-- `UploadStarted - UploadDone - UploadErr`
unfoldable pub active_uploads : StagingTile → Number
active_uploads s =
    sub
      (sub (or_nan (field (λ r. r.upload_started) s.staging_stats))
        (or_nan (field (λ r. r.upload_done) s.staging_stats)))
      (or_nan (field (λ r. r.upload_err) s.staging_stats))

abbrev pub upload_err : StagingTile → Number
upload_err s = or_nan (field (λ r. r.upload_err) s.staging_stats)

unfoldable pub staging_rows : StagingTile → List Row
unfolding active_uploads
staging_rows s =
    (codes "Read Requests:", num (field (λ r. r.counters.read_reqs) s.staging_stats))
    ∷ (codes "Read Rate:", followed_by (codes "/s") (num (some (round s.emas.read_reqs))))
    ∷ (codes "Read Bytes/s:", followed_by (codes "/s") (bytes (some (round s.emas.read_bytes))))
    ∷ (codes "Read Bytes:", bytes (field (λ r. r.counters.read_bytes) s.staging_stats))
    ∷ (codes "Upload Rate:", followed_by (codes "/s") (bytes (some (round s.emas.upload_bytes))))
    ∷ (codes "Uploaded Bytes:", bytes (field (λ r. r.counters.upload_bytes) s.staging_stats))
    ∷ (codes "Active Uploads:", some (to_text (active_uploads s)))
    ∷ ((if lt (of_ℕ 0) (upload_err s)
          then (codes "Upload Err:", num (some (upload_err s))) ∷ []
          else [])
        ++ (codes "Redirects Rate:", followed_by (codes "/s") (num (some (round s.emas.redirects))))
          ∷ [])

-- `getPercentage`, whose zero and text both stand in the markup as text.
unfoldable pub get_percentage : Number → Number → Text
get_percentage value total =
    if equal total (of_ℕ 0) then codes "0" else to_fixed 2 (mul (div value total) (of_ℕ 100))

-- The prop `stats` of the retrieval checker, from the first reply on.
pub record CheckerStats : Type 0 where
  pub to_do : Number
  pub success : Number
  pub fail : Number
  pub success_all : Number
  pub fail_all : Number

abbrev pub with_percentage : Number → Number → Text
with_percentage value total =
    to_text value ++ (codes " (" ++ (get_percentage value total ++ codes "%)"))

-- The second row is the bar, whose width stands for its text.
unfoldable pub checker_rows : CheckerStats → List Row
unfolding get_percentage
checker_rows s =
    let checked = add s.success s.fail in
    (
      codes "Progress:",
      some (
          to_text checked
          ++ (codes " / "
              ++ (to_text s.to_do
                  ++ (codes " (" ++ (get_percentage checked s.to_do ++ codes "%)"))))),
    )
    ∷ ([], some (get_percentage checked s.to_do ++ codes "%"))
    ∷ (codes "Success (current):", some (with_percentage s.success s.to_do))
    ∷ (codes "Fail (current):", some (with_percentage s.fail s.to_do))
    ∷ (codes "Success:", some (with_percentage s.success_all s.to_do))
    ∷ (codes "Fail:", some (with_percentage s.fail_all s.to_do))
    ∷ []

-- `RepairRetrievals`, which shows no numbers yet.
abbrev pub repair_retrieval_rows : List Row
repair_retrieval_rows =
    (codes "Queue", some (codes "0 Deals"))
    ∷ (codes "Active", some (codes "0 Deals"))
    ∷ (codes "Retrieval rate", some (codes "0 B/s"))
    ∷ []
