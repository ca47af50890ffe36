-- ===== src/Status/Timed.antt =====
-- The tiles of routes/Status.js that divide by the time between two readings: `GoRuntimeStats` and
-- `WorkerStats`. A reading is a counter and the `Date.now()` at which the tile took it.
use ribs.Base.{◌≡◌, refl, Option, none, some, List, [], ◌∷◌}
use ribs.Number.Defs.{Number, of_ℕ, sub, mul, div}
use ribs.Fmt.Units.{calc_ema}
use ribs.Status.Meter.{smoothing_factor, polls}
use ribs.Status.Rates.{answered}

pub record Reading : Type 0 where
  pub counter : Number
  pub time : Number

-- `prev_stats` is the counter of the last reading, none while it is undefined; `ema` the average.
pub record Timed : Type 0 where
  pub prev_stats : Option Number
  pub prev_time : Number
  pub ema : Number

abbrev pub timed_start : Number → Timed
timed_start now = record { prev_stats = none; prev_time = now; ema = of_ℕ 0 }

-- The part of the time that the collector paused, from nanoseconds in milliseconds.
abbrev pub pause_share : Number → Number → Number
pause_share pause elapsed = div pause (mul elapsed (of_ℕ 1000000))

-- `fetchStats` of `GoRuntimeStats` after its call.
unfoldable pub runtime_reply : Timed → Reading → Timed
runtime_reply s r =
    let elapsed_time = sub r.time s.prev_time in
    record {
      prev_stats = some r.counter;
      prev_time = r.time;
      ema = elim s.prev_stats [
        | none ↦ s.ema
        | some before ↦
            calc_ema (pause_share (sub r.counter before) elapsed_time) s.ema smoothing_factor
      ];
    }

-- The effect of `WorkerStats`, for new `stats`.
unfoldable pub worker_effect : Timed → Reading → Timed
worker_effect s r =
    let elapsed_time = div (sub r.time s.prev_time) (of_ℕ 1000) in
    record {
      prev_stats = some r.counter;
      prev_time = r.time;
      ema = elim s.prev_stats [
        | none ↦ s.ema
        | some before ↦ calc_ema (div (sub r.counter before) elapsed_time) s.ema smoothing_factor
      ];
    }

-- The average of the rates between successive readings, from a first one on.
abbrev pub rate_between : (Number → Number → Number) → Reading → Number → List Reading → Number
rate_between rate before ema [] = ema
rate_between rate before ema (r ∷ rs) =
    let now = rate (sub r.counter before.counter) (sub r.time before.time) in
    rate_between rate r (calc_ema now ema smoothing_factor) rs

abbrev pub timed_rate : (Number → Number → Number) → List Reading → Number
timed_rate rate [] = of_ℕ 0
timed_rate rate (r ∷ rs) = rate_between rate r (of_ℕ 0) rs

abbrev after : Reading → Number → Timed
after r ema = record { prev_stats = some r.counter; prev_time = r.time; ema = ema }

runtime-later :
    (rs : List (Option Reading)) (r : Reading) (e : Number)
    → (polls runtime_reply (after r e) rs).ema ≡ rate_between pause_share r e (answered rs)
unfolding polls runtime_reply
runtime-later [] r e = refl
runtime-later (none ∷ rs) r e = runtime-later rs r e
runtime-later (some q ∷ rs) r e =
    runtime-later rs q
      (calc_ema (pause_share (sub q.counter r.counter) (sub q.time r.time)) e smoothing_factor)

-- After any replies and errors the share of time that the collector pauses is the average of the
-- shares between each two successive replies, each over the time between those two; an error leaves
-- no trace, and neither does the time at which the tile was mounted.
pub polls-runtime :
    (mounted : Number) (rs : List (Option Reading))
    → (polls runtime_reply (timed_start mounted) rs).ema ≡ timed_rate pause_share (answered rs)
unfolding polls runtime_reply
polls-runtime mounted [] = refl
polls-runtime mounted (none ∷ rs) = polls-runtime mounted rs
polls-runtime mounted (some r ∷ rs) = runtime-later rs r (of_ℕ 0)

-- Bytes a second, from milliseconds.
abbrev pub per_second : Number → Number → Number
per_second bytes elapsed = div bytes (div elapsed (of_ℕ 1000))

unfoldable pub worker_effects : Timed → List Reading → Timed
worker_effects s [] = s
worker_effects s (r ∷ rs) = worker_effects (worker_effect s r) rs

worker-later :
    (rs : List Reading) (r : Reading) (e : Number)
    → (worker_effects (after r e) rs).ema ≡ rate_between per_second r e rs
unfolding worker_effects worker_effect
worker-later [] r e = refl
worker-later (q ∷ rs) r e =
    worker-later rs q
      (calc_ema (per_second (sub q.counter r.counter) (sub q.time r.time)) e smoothing_factor)

-- After any sequence of statistics the data CID rate is the average of the rates between successive
-- ones, in bytes a second, and the first one gives none.
worker_effects-rate :
    (mounted : Number) (rs : List Reading)
    → (worker_effects (timed_start mounted) rs).ema ≡ timed_rate per_second rs
unfolding worker_effects worker_effect
worker_effects-rate mounted [] = refl
worker_effects-rate mounted (r ∷ rs) = worker-later rs r (of_ℕ 0)
