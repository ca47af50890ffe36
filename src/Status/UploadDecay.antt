-- ===== src/Status/UploadDecay.antt =====
-- What the interval of `CarUploadStatsTile` (routes/Status.js) does to its rates between two replies.
use ribs.Base.{ℕ, zero, suc, ◌≡◌, refl, sym, ◌∙◌, some, List}
use ribs.Number.Defs.{Number, or_zero, or_nan, round}
use ribs.Status.Meter.{meter}
use ribs.Status.Upload.{lookup, UploadStats, CarUploadStats, UploadTile, calc_rates}
use ribs.Status.UploadRates.{IsObject, calc_rates-shown}
use ribs.Status.UploadTimer.{Timed, new_props, fired, fires}

-- The average after `n` rounds in which nothing was sent.
abbrev pub decayed : Number → Number → ℕ → Number
decayed bytes ema zero = ema
decayed bytes ema (suc n) = decayed bytes (meter bytes bytes (or_zero ema)) n

fired-group :
    (t : Timed) (groups : List (ℕ × UploadStats)) (k : ℕ) (stats : UploadStats) {ema : Number}
    → t.props.by_group ≡ some groups
    → IsObject groups
    → lookup k groups ≡ some stats
    → lookup k t.tile.prev ≡ some stats.upload_bytes
    → lookup k t.tile.emas ≡ some ema
    → let next = meter stats.upload_bytes stats.upload_bytes (or_zero ema) in
      (lookup k (fired t).tile.prev ≡ some stats.upload_bytes)
      × (lookup k (fired t).tile.emas ≡ some next)
      × (lookup k (fired t).tile.display_stats
          ≡ some (record { stats = stats; upload_rate = round next }))
unfolding fired
fired-group t groups k stats e o h p a =
    let (p', d, a') =
      calc_rates-shown t.props t.global_rate t.last_global_bytes t.tile groups k e o h in
    (p', a' ∙ (rw (p, a) refl), d ∙ (rw (p, a) refl))

-- What the tile knows of a group whose bytes stay, with its average.
abbrev Knows : ℕ → UploadStats → Number → UploadTile → Type 0
Knows k stats ema s =
    (lookup k s.prev ≡ some stats.upload_bytes)
    × (lookup k s.emas ≡ some ema)
    × (lookup k s.display_stats ≡ some (record { stats = stats; upload_rate = round ema }))

fires-Knows :
    (n : ℕ) (t : Timed) (groups : List (ℕ × UploadStats)) (k : ℕ) (stats : UploadStats)
    (ema : Number)
    → t.props.by_group ≡ some groups
    → IsObject groups
    → lookup k groups ≡ some stats
    → Knows k stats ema t.tile
    → Knows k stats (decayed stats.upload_bytes ema n) (fires n t).tile
unfolding fires fired
fires-Knows zero t groups k stats ema e o h known = known
fires-Knows (suc n) t groups k stats ema e o h (p, a, d) =
    fires-Knows n (fired t) groups k stats
      (meter stats.upload_bytes stats.upload_bytes (or_zero ema)) e o h
      (fired-group t groups k stats e o h p a)

-- A call with the same props and captured values sets the same totals.
abbrev SameTotals : UploadTile → UploadTile → Type 0
SameTotals s t = (s.global_rate ≡ t.global_rate) × (s.last_global_bytes ≡ t.last_global_bytes)

fires-SameTotals :
    (n : ℕ) (t : Timed) (s : UploadTile)
    → SameTotals t.tile (calc_rates t.props t.global_rate t.last_global_bytes s)
    → SameTotals (fires n t).tile t.tile
unfolding fires fired calc_rates
fires-SameTotals zero t s same = (refl, refl)
fires-SameTotals (suc n) t s (r, b) =
    let (r', b') = fires-SameTotals n (fired t) s (refl, refl) in (r' ∙ sym r, b' ∙ sym b)

-- A reply with a group of which the tile had bytes, and after it any number of ticks of the interval
-- before the next reply: each tick takes the rate that is shown of the group for one in which nothing
-- was sent, though nothing new is known, while the total rate and the total stay as the reply set them.
pub fires-decay :
    (n : ℕ) (props : CarUploadStats) (tile : UploadTile) (groups : List (ℕ × UploadStats)) (k : ℕ)
    {stats : UploadStats} {before : Number}
    → props.by_group ≡ some groups
    → IsObject groups
    → lookup k groups ≡ some stats
    → lookup k tile.prev ≡ some before
    → let first = new_props props tile in
      let later = fires n first in
      let ema = meter stats.upload_bytes before (or_zero (or_nan (lookup k tile.emas))) in
      (lookup k later.tile.display_stats
        ≡ some (record { stats = stats; upload_rate = round (decayed stats.upload_bytes ema n) }))
      × SameTotals later.tile first.tile
unfolding new_props
fires-decay n props tile groups k {stats} e o h p =
    let (p', d, a) =
      calc_rates-shown props tile.global_rate tile.last_global_bytes tile groups k e o h in
    let known =
      fires-Knows n (new_props props tile) groups k stats _ e o h
        (p', a ∙ (rw p refl), d ∙ (rw p refl)) in
    (known.2, fires-SameTotals n (new_props props tile) tile (refl, refl))
