-- ===== src/Status/Upload.antt =====
-- `CarUploadStatsTile` of routes/Status.js: `calcRates`. Groups are numbered; a JavaScript object with
-- groups as keys is a list of pairs.
use ribs.Base.{ℕ, ◌≡◌, refl, Bool, Option, none, some, List, [], ◌∷◌, arith, ◌==◌, if◌then◌else◌}
use ribs.Number.Defs.{Number, of_ℕ, sub, div, equal, or_zero, or_nan, round}
use ribs.Fmt.Units.{calc_ema}
use ribs.Status.Meter.{smoothing_factor, meter}

module _ {ℓ} {V : Type ℓ} where
  abbrev pub lookup : ℕ → List (ℕ × V) → Option V
  lookup k [] = none
  lookup k ((j, v) ∷ m) = if j == k then some v else lookup k m

  abbrev pub insert : ℕ → V → List (ℕ × V) → List (ℕ × V)
  insert k v [] = (k, v) ∷ []
  insert k v ((j, w) ∷ m) = let rest = insert k v m in if j == k then (k, v) ∷ m else (j, w) ∷ rest

  pub lookup-insert :
      (k j : ℕ) (v : V) (m : List (ℕ × V))
      → lookup j (insert k v m) ≡ (if k == j then some v else lookup j m)
  lookup-insert k j v [] = refl
  lookup-insert k j v ((i, w) ∷ m) = ground (arith, lookup-insert k j v m)

-- An entry of `ByGroup`.
pub record UploadStats : Type 0 where
  pub active_requests : Number
  pub upload_bytes : Number

pub record UploadShown : Type 0 where
  pub stats : UploadStats
  pub upload_rate : Number

-- The references of the tile, and the new display that the loop builds; `prev` keeps `UploadBytes`.
pub record Loop : Type 0 where
  pub prev : List (ℕ × Number)
  pub emas : List (ℕ × Number)
  pub display : List (ℕ × UploadShown)

-- `rateEMARef.current[groupKey] || 0`
abbrev pub known_ema : ℕ → Loop → Number
known_ema key s = or_zero (or_nan (lookup key s.emas))

-- One round of the loop over `Object.entries(byGroup)`.
unfoldable pub rate_group : Loop → ℕ × UploadStats → Loop
rate_group s (key, stats) = elim (lookup key s.prev) [
  | none ↦ record s { prev = insert key stats.upload_bytes s.prev }
  | some before ↦
      let ema = meter stats.upload_bytes before (known_ema key s) in
      record {
        prev = insert key stats.upload_bytes s.prev;
        emas = insert key ema s.emas;
        display = insert key (record { stats = stats; upload_rate = round ema }) s.display;
      }
]

unfoldable pub rate_groups : Loop → List (ℕ × UploadStats) → Loop
rate_groups s [] = s
rate_groups s (e ∷ es) = rate_groups (rate_group s e) es

-- The prop `carUploadStats`, each of whose fields may be undefined.
pub record CarUploadStats : Type 0 where
  pub by_group : Option (List (ℕ × UploadStats))
  pub last_total_bytes : Option Number

-- The tile; `undefined` may come to stand in `last_global_bytes`.
pub record UploadTile : Type 0 where
  pub prev : List (ℕ × Number)
  pub emas : List (ℕ × Number)
  pub display_stats : List (ℕ × UploadShown)
  pub global_rate : Number
  pub last_global_bytes : Option Number

-- `calcRates`, over the `globalRate` and `lastGlobalBytes` of the render that set the interval.
unfoldable pub calc_rates : CarUploadStats → Number → Option Number → UploadTile → UploadTile
unfolding rate_groups
calc_rates props global_rate last_global_bytes s =
    let by_group : List (ℕ × UploadStats) = elim props.by_group [ none ↦ [] | some g ↦ g ] in
    let loop : Loop =
      rate_groups (record { prev = s.prev; emas = s.emas; display = [] }) by_group in
    let is_zero : Bool = equal (or_nan last_global_bytes) (of_ℕ 0) in
    let last_bytes : Option Number =
      if is_zero then props.last_total_bytes else last_global_bytes in
    let global_bytes_change = sub (or_nan props.last_total_bytes) (or_nan last_bytes) in
    let global_rate_ema =
      calc_ema global_bytes_change (or_zero global_rate) (div smoothing_factor (of_ℕ 10)) in
    record {
      prev = loop.prev;
      emas = loop.emas;
      display_stats = loop.display;
      global_rate = round global_rate_ema;
      last_global_bytes = props.last_total_bytes;
    }
