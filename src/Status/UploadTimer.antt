-- ===== src/Status/UploadTimer.antt =====
-- The effect of `CarUploadStatsTile` (routes/Status.js): `calcRates` runs for every new `carUploadStats`
-- and then at each tick of an interval, until the next ones come. It sees the values of the render
-- that the effect belongs to, but the references as they are.
use ribs.Base.{Option, some, [], ℕ, zero, suc}
use ribs.Number.Defs.{Number, of_ℕ}
use ribs.Status.Upload.{CarUploadStats, UploadTile, calc_rates}

-- The tile with what its interval captured.
pub record Timed : Type 0 where
  pub tile : UploadTile
  pub props : CarUploadStats
  pub global_rate : Number
  pub last_global_bytes : Option Number

abbrev pub no_tile : UploadTile
no_tile = record {
  prev = [];
  emas = [];
  display_stats = [];
  global_rate = of_ℕ 0;
  last_global_bytes = some (of_ℕ 0);
}

-- The effect for `props` on a tile: the first call.
unfoldable pub new_props : CarUploadStats → UploadTile → Timed
new_props props tile = record {
  tile = calc_rates props tile.global_rate tile.last_global_bytes tile;
  props = props;
  global_rate = tile.global_rate;
  last_global_bytes = tile.last_global_bytes;
}

-- The interval fires.
unfoldable pub fired : Timed → Timed
fired t = record t { tile = calc_rates t.props t.global_rate t.last_global_bytes t.tile }

unfoldable pub fires : ℕ → Timed → Timed
fires zero t = t
fires (suc n) t = fires n (fired t)
