-- ===== src/RepairPage/Page.antt =====
-- `Repair` (routes/Repair.js): its polling, the rates of its workers and its tables. Workers are
-- numbered; times are milliseconds of `Date.now()`.
use mathlib.Core.Option
use ribs.Base.{ℕ, Option, none, some, List, [], ◌∷◌, ◌++◌, map, Text, codes, decimal}
use ribs.Number.Defs.{Number, of_ℕ, add, sub, mul, div, or_zero, or_nan}
use ribs.Number.Print.{to_text}
use ribs.Fmt.Units.{format_bytes_binary, format_num, calc_ema}
use ribs.Groups.Views.{both, group_link}
use ribs.Status.Cells.{plain_text, field}
use ribs.Status.Meter.{smoothing_factor}
use ribs.Status.Upload.{lookup, insert}

pub record WorkerState : Type 0 where
  pub group_key : ℕ
  pub state : Text
  pub fetch_size : Number
  pub fetch_progress : Number
  pub fetch_url : Text

pub record QueueStats : Type 0 where
  pub total : Number
  pub assigned : Number

-- The two states and the three references.
pub record Repair : Type 0 where
  pub worker_states : List (ℕ × WorkerState)
  pub queue_stats : Option QueueStats
  pub prev_worker_states : List (ℕ × WorkerState)
  pub prev_fetch_time : Number
  pub rate_emas : List (ℕ × Number)

-- `rateEMARef.current[key] || 0`
abbrev pub known_rate : ℕ → List (ℕ × Number) → Number
known_rate key emas = or_zero (or_nan (lookup key emas))

abbrev pub fetch_rate : WorkerState → WorkerState → Number → Number
fetch_rate now before elapsed = div (sub now.fetch_progress before.fetch_progress) elapsed

-- A round of the loop over `Object.entries(workerStates)`.
unfoldable pub rate_worker :
    List (ℕ × WorkerState) → Number → List (ℕ × Number) → ℕ × WorkerState → List (ℕ × Number)
rate_worker prev elapsed emas (key, state) = elim (lookup key prev) [
  | none ↦ emas
  | some before ↦
      insert key (calc_ema (fetch_rate state before elapsed) (known_rate key emas) smoothing_factor)
        emas
]

unfoldable pub rate_workers :
    List (ℕ × WorkerState) → Number → List (ℕ × Number) → List (ℕ × WorkerState) → List (ℕ × Number)
unfolding rate_worker
rate_workers prev elapsed emas [] = emas
rate_workers prev elapsed emas (w ∷ ws) =
    rate_workers prev elapsed (rate_worker prev elapsed emas w) ws

abbrev pub elapsed_time : Repair → Number → Number
elapsed_time s now = div (sub now s.prev_fetch_time) (of_ℕ 1000)

-- The effect on `workerStates`.
unfoldable pub run_effect : Number → Repair → Repair
unfolding rate_workers
run_effect now s = record s {
  rate_emas = rate_workers s.prev_worker_states (elapsed_time s now) s.rate_emas s.worker_states;
  prev_fetch_time = now;
  prev_worker_states = s.worker_states;
}

-- The component as it is mounted: its first effects run at once.
unfoldable pub start : Number → Repair
unfolding run_effect
start now = run_effect now (record {
  worker_states = [];
  queue_stats = none;
  prev_worker_states = [];
  prev_fetch_time = now;
  rate_emas = [];
})

abbrev pub set_queue : Option QueueStats → Repair → Repair
set_queue none s = s
set_queue (some stats) s = record s { queue_stats = some stats }

-- `fetchWorkerStates` under the replies to "RepairStats" and "RepairQueue", none for an error; the
-- effect runs at `now`, after the first reply.
unfoldable pub fetch_worker_states :
    Option (List (ℕ × WorkerState)) → Option QueueStats → Number → Repair → Repair
fetch_worker_states none queue now s = s
fetch_worker_states (some result) queue now s =
    set_queue queue (run_effect now (record s { worker_states = result }))

-- The row of the queue.
unfoldable pub queue_row : Option QueueStats → Text × Text
queue_row stats = (
  plain_text (field (λ q. q.total) stats) ++ codes " Group(s)",
  plain_text (field (λ q. q.assigned) stats) ++ codes " Group(s)",
)

-- `FetchProgress / (FetchSize + 1) * 100`
unfoldable pub fetch_percentage : WorkerState → Number
fetch_percentage w = mul (div w.fetch_progress (add w.fetch_size (of_ℕ 1))) (of_ℕ 100)

-- The row of a worker: `bar` is a width in percent. A text is none where a formatter does not return.
pub record WorkerRow : Type 0 where
  pub worker : Text
  pub link : Text
  pub group : Text
  pub state : Text
  pub size : Option Text
  pub rate : Option Text
  pub bar : Number
  pub url : Text

unfoldable pub worker_row : List (ℕ × Number) → ℕ × WorkerState → WorkerRow
unfolding fetch_percentage
worker_row emas (key, w) = record {
  worker = decimal key;
  link = group_link w.group_key;
  group = to_text (of_ℕ w.group_key);
  state = w.state;
  size =
      Option.map (λ t. t ++ codes "%")
        (both (codes " ")
          (both (codes " / ") (format_bytes_binary w.fetch_size)
            (format_bytes_binary w.fetch_progress))
          (format_num (fetch_percentage w) 2));
  rate = Option.map (λ t. t ++ codes "/s") (format_bytes_binary (known_rate key emas));
  bar = fetch_percentage w;
  url = w.fetch_url;
}

unfoldable pub worker_rows : Repair → List WorkerRow
unfolding worker_row
worker_rows s = map (worker_row s.rate_emas) s.worker_states
