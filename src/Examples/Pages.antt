-- ===== src/Examples/Pages.antt =====
-- routes/Group.js, routes/Repair.js and tables of routes/Status.js on concrete runs.
use ribs.Base.{
  ℕ, ◌+◌, ◌*◌, ◌≡◌, ◌≢◌, ◌≤◌, refl, true, false, none, some, List, [], ◌∷◌, map, arith, codes,
}
use ribs.Number.Defs.{inf}
use ribs.Number.Exact.{whole}
use ribs.Number.Print.{point_text, running}
use ribs.Number.Bounds.{IsWithin}
use ribs.Fmt.Units.{calc_ema}
use ribs.Fmt.Loops.{Returns}
use ribs.Groups.Polling.{Meta, throttled}
use ribs.GroupPage.Page.{
  Event, tick, replies, head, visit, mount, step, run, begin_fetch, end_fetch,
}
use ribs.GroupPage.Polls.{replies-polls_on}
use ribs.GroupPage.Visits.{visit-starves}
use ribs.Status.Meter.{
  polls, StagingStats, staging_start, staging_reply, IoCounters, io_start, io_reply, TopIndexStats,
  top_index_start, top_index_reply,
}
use ribs.Status.RetrievalTiles.{get_percentage, staging_rows}
use ribs.Status.Percentages.{get_percentage-range}
use ribs.Status.Rendering.{IsReply, Shows}
use ribs.Status.Tables.{IsIoReply, tables-Shows}
use ribs.Status.StorageTiles.{io_rows, top_index_rows}
use ribs.Status.Upload.{lookup}
use ribs.RepairPage.Page.{
  WorkerState, Repair, fetch_rate, elapsed_time, fetch_worker_states, worker_row, run_effect,
  rate_workers, rate_worker,
}
use ribs.RepairPage.Rates.{rated, fetch_worker_states-rated}
use ribs.RepairPage.Bars.{IsFetching, IsPercent, worker_row-range, infinite-sticks}

-- A group that is being dealt.
abbrev dealt : Meta
dealt = record {
  state = 3;
  blocks = 10;
  max_blocks = 10;
  bytes = 1000;
  max_bytes = 1000;
  piece_cid = codes "baga";
  root_cid = codes "bafy";
}

abbrev answered : List Event
answered = replies 0 dealt [] 1200 ∷ head none ∷ []

answered-throttled : throttled (run (mount 5 1000) answered).group 3000 ≡ true
unfolding run step mount begin_fetch end_fetch throttled
answered-throttled = refl

visit-starves_example :
    let shown = run (mount 5 1000) answered in
    let p = run (step shown (visit 6 3000)) (tick 3500 ∷ tick 60000 ∷ []) in
    (p.requests ≡ 0) × (p.group.group_key ≢ some 6)
visit-starves_example =
    visit-starves 5 6 1000 3000 answered (tick 3500 ∷ tick 60000 ∷ []) (λ e. absurd (omega arith))
      (tt, (tt, tt)) (tt, (tt, tt)) answered-throttled

mount_waits : (run (mount 5 1000) []).fetches ≢ []
unfolding run mount begin_fetch throttled
mount_waits e = cc

replies-polls_on_example :
    let p = run (mount 5 1000) [] in
    let shown = run (step p (replies 0 dealt [] 1200)) (map head (none ∷ some (whole 9) ∷ [])) in
    (shown.group
      ≡ record { info = some dealt; group_key = some 5; deals = []; last_refresh = some 1200 })
    × ((step shown (tick 1500)).requests ≡ p.requests + 1)
replies-polls_on_example =
    replies-polls_on 5 1000 [] dealt [] 1200 1500 (none ∷ some (whole 9) ∷ []) tt mount_waits

-- Worker 1 of group 7, with bytes fetched of 1000.
abbrev worker : ℕ → WorkerState
worker fetched = record {
  group_key = 7;
  state = codes "fetching";
  fetch_size = whole 1000;
  fetch_progress = whole fetched;
  fetch_url = codes "http://sp/piece";
}

abbrev before : Repair
before = record {
  worker_states = (1, worker 100) ∷ [];
  queue_stats = none;
  prev_worker_states = (1, worker 100) ∷ [];
  prev_fetch_time = whole 5000;
  rate_emas = (1, inf false) ∷ [];
}

fetch_worker_states-rated_example :
    let s =
      fetch_worker_states (some ((1, worker 300) ∷ (2, worker 0) ∷ [])) none (whole 6000) before in
    (lookup 1 s.rate_emas
      ≡ rated
          (some (worker 300))
          (some (worker 100))
          (elapsed_time before (whole 6000))
          (some (inf false)))
    × (s.prev_worker_states ≡ (1, worker 300) ∷ (2, worker 0) ∷ [])
    × (s.worker_states ≡ (1, worker 300) ∷ (2, worker 0) ∷ [])
    × (s.prev_fetch_time ≡ whole 6000)
fetch_worker_states-rated_example =
    fetch_worker_states-rated ((1, worker 300) ∷ (2, worker 0) ∷ []) none (whole 6000) before 1
      (((λ e. absurd (omega arith)), tt), (tt, tt))

fetching : IsFetching (worker 300)
fetching = record {
  progress = 300;
  size = 1000;
  fetch_progress = refl;
  fetch_size = refl;
  progress_le = omega arith;
  size_lt = omega arith;
}

worker_row-range_example :
    IsPercent (worker_row [] (1, worker 300)).bar × Returns (worker_row [] (1, worker 300)).size
worker_row-range_example = worker_row-range 1 (worker 300) [] fetching

fetch_rate-IsWithin :
    IsWithin (8 * 1000) (fetch_rate (worker 300) (worker 100) (elapsed_time before (whole 6000)))
unfolding running
fetch_rate-IsWithin = omega arith

infinite-sticks_example :
    let emas =
      (fetch_worker_states (some ((1, worker 300) ∷ [])) none (whole 6000) before).rate_emas in
    (lookup 1 emas ≡ some (inf false))
    × ((worker_row emas (1, worker 300)).rate ≡ some (codes "0 B/s"))
infinite-sticks_example =
    infinite-sticks ((1, worker 300) ∷ []) none (whole 6000) before 1 1000 (omega arith) (tt, tt)
      refl refl fetch_rate-IsWithin refl

-- Two replies in the same millisecond give the rate of worker 1.
same_time-inf :
    lookup 1
      (fetch_worker_states
        (some ((1, worker 300) ∷ []))
        none
        (whole 5000)
        (record before { rate_emas = [] })).rate_emas
    ≡ some (inf false)
unfolding running fetch_worker_states run_effect rate_workers rate_worker calc_ema
same_time-inf = refl

abbrev staged : ℕ → StagingStats
staged n = record {
  counters = record {
    read_reqs = whole n;
    read_bytes = whole n;
    upload_bytes = whole n;
    redirects = whole n;
  };
  upload_started = whole 4;
  upload_done = whole 3;
  upload_err = whole n;
}

staged-IsReply : (n : ℕ) → n ≤ 8000 → IsReply 1000 (omega arith) (staged n)
staged-IsReply n h = record {
  read_reqs = (n, h, refl);
  read_bytes = (n, h, refl);
  upload_bytes = (n, h, refl);
  redirects = (n, h, refl);
  upload_err = (n, h, refl);
}

abbrev moved : ℕ → IoCounters
moved n = record {
  read_blocks = whole n;
  write_blocks = whole 2;
  read_bytes = whole n;
  write_bytes = whole 4096;
}

moved-IsIoReply : (n : ℕ) → n ≤ 8000 → IsIoReply 1000 (omega arith) (moved n)
moved-IsIoReply n h = record {
  read_blocks = (n, h, refl);
  write_blocks = (2, omega arith, refl);
  read_bytes = (n, h, refl);
  write_bytes = (4096, omega arith, refl);
}

abbrev indexed : TopIndexStats
indexed = record { reads = whole 5; writes = whole 3; entries = whole 900 }

tables_shown :
    Shows (
      staging_rows
        (polls staging_reply staging_start (some (staged 7) ∷ none ∷ some (staged 9) ∷ [])))
    × Shows (io_rows (polls io_reply io_start (none ∷ some (moved 1) ∷ some (moved 5) ∷ [])))
    × Shows (top_index_rows (polls top_index_reply top_index_start (some indexed ∷ none ∷ [])))
tables_shown =
    tables-Shows 1000 (omega arith) (some (staged 7) ∷ none ∷ some (staged 9) ∷ [])
      (none ∷ some (moved 1) ∷ some (moved 5) ∷ []) (some indexed ∷ none ∷ [])
      (staged-IsReply 7 (omega arith), (staged-IsReply 9 (omega arith), tt))
      (moved-IsIoReply 1 (omega arith), (moved-IsIoReply 5 (omega arith), tt))
      ((900, omega arith, refl), tt)

shared : (q : ℕ) × (q ≤ 10000) × (get_percentage (whole 3) (whole 7) ≡ point_text 2 q)
shared = get_percentage-range 3 7 (omega arith) (omega arith)
