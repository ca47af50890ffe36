-- ===== src/RepairPage/Bars.antt =====
-- What the row of a worker of routes/Repair.js shows of its progress, and of a rate without bounds.
use mathlib.Core.Option
use ribs.Base.{
  ℕ, ◌+◌, ◌*◌, ◌≤◌, ◌<◌, ◌≡◌, refl, ap, ◌∙◌, false, Option, none, some, List, ◌++◌, Text, codes,
  arith,
}
use ribs.Number.Rounding.{unit, significands}
use ribs.Number.Defs.{Number, fin, inf, or_zero}
use ribs.Number.Exact.{whole, of_ℕ-whole, add-whole}
use ribs.Number.Percent.{percent-le}
use ribs.Number.Bounds.{IsWithin, IsWithin-IsDouble}
use ribs.Fmt.Units.{scale_loop, format_bytes_binary}
use ribs.Fmt.Averages.{calc_ema-inf}
use ribs.Fmt.Loops.{Returns, Returns-map, format_num-Returns, format_bytes_binary-Returns}
use ribs.Groups.Views.{both}
use ribs.Number.Print.{running}
use ribs.Status.Upload.{lookup}
use ribs.Status.UploadRates.{IsObject}
use ribs.RepairPage.Page.{
  WorkerState, QueueStats, Repair, fetch_rate, fetch_percentage, elapsed_time, fetch_worker_states,
  worker_row,
}
use ribs.RepairPage.Rates.{fetch_worker_states-rated}

both-Returns :
    (between : Text) (a b : Option Text) → Returns a → Returns b → Returns (both between a b)
both-Returns between none b h h' = h
both-Returns between (some a) b h h' = Returns-map _ b h'

-- A worker that has fetched whole numbers of bytes, up to the size that it knows.
pub record IsFetching (w : WorkerState) : Type 0 where
  pub progress : ℕ
  pub size : ℕ
  pub fetch_progress : w.fetch_progress ≡ whole progress
  pub fetch_size : w.fetch_size ≡ whole size
  pub progress_le : progress ≤ size
  pub size_lt : size + 1 < significands

-- A number that is not negative and at most 100; numbers are counted in units of 2 ^ -1074.
abbrev pub IsPercent : Number → Type 0
IsPercent x = (v : ℕ) × (v ≤ 100 * unit) × (x ≡ fin false v)

percentage-IsPercent : (w : WorkerState) → IsFetching w → IsPercent (fetch_percentage w)
unfolding fetch_percentage
percentage-IsPercent w f =
    rw (f.fetch_progress, f.fetch_size, of_ℕ-whole 1 (omega arith), add-whole f.size 1 f.size_lt)
      (percent-le f.progress (f.size + 1) (omega arith) (omega (arith, f.progress_le)))

percent-IsWithin : (x : Number) → IsPercent x → IsWithin 100 x
percent-IsWithin x (v, le, e) = rw e le

bytes-Returns :
    (x : Number) (m : ℕ) → m < significands → x ≡ whole m → Returns (format_bytes_binary x)
bytes-Returns x m h e =
    rw e
      ((format_bytes_binary-Returns (whole m) (IsWithin-IsDouble m h (whole m) (omega arith)).0).0)

-- The bar of a worker that has fetched whole numbers of bytes, up to the size that it knows and
-- that is below 2 ^ 53 - 1, has a width that is not negative and at most 100 percent, also while the size is still 0, and
-- its progress is shown as a text.
pub worker_row-range :
    (key : ℕ) (w : WorkerState) (emas : List (ℕ × Number))
    → IsFetching w
    → IsPercent (worker_row emas (key, w)).bar × Returns (worker_row emas (key, w)).size
unfolding worker_row
worker_row-range key w emas f =
    let percent = percentage-IsPercent w f in
    let (double, finite) =
      IsWithin-IsDouble 100 (omega arith) (fetch_percentage w) (percent-IsWithin _ percent) in
    let size = bytes-Returns w.fetch_size f.size (omega (arith, f.size_lt)) f.fetch_size in
    let progress =
      bytes-Returns w.fetch_progress f.progress (omega (arith, f.progress_le, f.size_lt))
        f.fetch_progress in
    (
      percent,
      Returns-map (λ (t : Text). t ++ codes "%") _
          (both-Returns (codes " ") _ _ (both-Returns (codes " / ") _ _ size progress)
            (format_num-Returns (fetch_percentage w) 2 double finite)),
    )

infinite-text :
    Option.map (λ t. t ++ codes "/s") (format_bytes_binary (inf false)) ≡ some (codes "0 B/s")
unfolding running format_bytes_binary scale_loop
infinite-text = refl

-- An average of a worker that is infinite stays so under a later reply that has each worker once,
-- with this worker as the last reply had it, if the rate between them is finite and at most 8 n,
-- with 16 n below 2 ^ 53; its row shows "0 B/s" then.
pub infinite-sticks :
    (ws : List (ℕ × WorkerState)) (q : Option QueueStats) (now : Number) (s : Repair) (k n : ℕ)
    {w before : WorkerState}
    → 16 * n < significands
    → IsObject ws
    → lookup k ws ≡ some w
    → lookup k s.prev_worker_states ≡ some before
    → IsWithin (8 * n) (fetch_rate w before (elapsed_time s now))
    → lookup k s.rate_emas ≡ some (inf false)
    → let emas = (fetch_worker_states (some ws) q now s).rate_emas in
      (lookup k emas ≡ some (inf false)) × ((worker_row emas (k, w)).rate ≡ some (codes "0 B/s"))
unfolding worker_row or_zero
infinite-sticks ws q now s k n {w} {before} hn o here there within inf_before =
    let rated_k = (fetch_worker_states-rated ws q now s k o).0 in
    let stays : lookup k (fetch_worker_states (some ws) q now s).rate_emas ≡ some (inf false) =
      rated_k ∙ (rw (here, there, inf_before) (ap some (calc_ema-inf n _ hn within))) in
    (stays, rw stays infinite-text)
