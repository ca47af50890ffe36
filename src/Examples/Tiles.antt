-- ===== src/Examples/Tiles.antt =====
-- routes/Status.js on concrete runs.
use ribs.Base.{ℕ, ◌≡◌, ◌⊎◌, refl, true, false, none, some, Option, List, [], ◌∷◌, arith, Text}
use ribs.Number.Defs.{Number, of_ℕ, round, nan, or_zero}
use ribs.Status.Meter.{meter, polls, TopIndexStats, top_index_start, top_index_reply}
use ribs.Status.Rates.{rate, polls-top_index}
use ribs.Status.DealCounts.{
  CountItem, chart_data, RowsAscending, bars_shown, last_groups, chart_data-bars,
}
use ribs.Status.Upload.{lookup, UploadStats, CarUploadStats, UploadTile, calc_rates}
use ribs.Status.UploadRates.{shown_of, ema_after, calc_rates-shown}
use ribs.Status.UploadTimer.{new_props, fires}
use ribs.Status.UploadDecay.{decayed, fires-decay}
use ribs.Status.Fetch.{Answers, Shown, IsRound, fetch_status, fetch_status-all_or_first}
use ribs.Status.Wallet.{
  add, withdraw, start, wallet_market_add, wallet_market_withdraw, amount_text, handle_submit,
  Event, click_add, change, settled, run, step, handle_add_withdraw_click, handle_amount_change,
  end_submit,
}
use ribs.Status.Timed.{Reading, timed_start, runtime_reply, pause_share, timed_rate, polls-runtime}
use ribs.Status.WalletClicks.{IsLastClick, run-submits}

abbrev index_stats : ℕ → TopIndexStats
index_stats n = record { reads = of_ℕ n; writes = of_ℕ 3; entries = of_ℕ 9 }

-- Two replies with an error between them.
abbrev index_polls : List (Option TopIndexStats)
index_polls = some (index_stats 100) ∷ none ∷ some (index_stats 150) ∷ []

polled :
    (polls top_index_reply top_index_start index_polls).index_stats
    ≡ some (record {
      stats = index_stats 150;
      read_rate = round (rate (of_ℕ 100 ∷ of_ℕ 150 ∷ []));
      write_rate = round (rate (of_ℕ 3 ∷ of_ℕ 3 ∷ []));
    })
polled = polls-top_index index_polls

abbrev item : ℕ → ℕ → CountItem
item count groups = record { count = count; groups = groups }

abbrev retrievable_items : List CountItem
retrievable_items = item 5 10 ∷ item 3 7 ∷ []

abbrev sealed_items : List CountItem
sealed_items = item 5 12 ∷ item 9 1 ∷ []

chart_data-bars_example :
    RowsAscending (chart_data retrievable_items sealed_items)
    × (bars_shown 5 (chart_data retrievable_items sealed_items)
        ≡ (last_groups none 5 retrievable_items, last_groups none 5 sealed_items))
chart_data-bars_example = chart_data-bars retrievable_items sealed_items 5

abbrev uploads : ℕ → UploadStats
uploads n = record { active_requests = of_ℕ 1; upload_bytes = of_ℕ n }

abbrev by_group : List (ℕ × UploadStats)
by_group = (1, uploads 500) ∷ (2, uploads 800) ∷ []

-- The tile knew the bytes of group 2 only.
abbrev upload_tile : UploadTile
upload_tile = record {
  prev = (2, of_ℕ 300) ∷ [];
  emas = [];
  display_stats = [];
  global_rate = of_ℕ 0;
  last_global_bytes = some (of_ℕ 300);
}

abbrev upload_props : CarUploadStats
upload_props = record { by_group = some by_group; last_total_bytes = some (of_ℕ 1300) }

calc_rates-shown_example :
    let s' = calc_rates upload_props (of_ℕ 0) (some (of_ℕ 300)) upload_tile in
    (lookup 2 s'.prev ≡ some (of_ℕ 800))
    × (lookup 2 s'.display_stats ≡ some (shown_of (uploads 800) (of_ℕ 300) none))
    × (lookup 2 s'.emas ≡ ema_after (uploads 800) (some (of_ℕ 300)) none)
calc_rates-shown_example =
    calc_rates-shown upload_props (of_ℕ 0) (some (of_ℕ 300)) upload_tile by_group 2 refl
      ((λ e. absurd (omega arith), tt), (tt, tt)) refl

fires-decay_example :
    let first = new_props upload_props upload_tile in
    let later = fires 2 first in
    let ema = meter (of_ℕ 800) (of_ℕ 300) (or_zero nan) in
    (lookup 2 later.tile.display_stats
      ≡ some (record { stats = uploads 800; upload_rate = round (decayed (of_ℕ 800) ema 2) }))
    × ((later.tile.global_rate ≡ first.tile.global_rate)
        × (later.tile.last_global_bytes ≡ first.tile.last_global_bytes))
fires-decay_example =
    fires-decay 2 upload_props upload_tile by_group 2 refl
      ((λ e. absurd (omega arith), tt), (tt, tt)) refl refl

-- The node answers the first three calls and fails on the fourth.
abbrev partial : Answers ℕ
partial = record {
  wallet_info = some 1;
  groups = some 2;
  crawl_state = some 3;
  car_upload_stats = none;
  reachable_providers = some 5;
  deal_summary = some 6;
  retr_stats = some 7;
  retr_checker_stats = some 8;
  worker_stats = some 9;
}

abbrev blank : Shown ℕ
blank = ribs.Status.Fetch.start 0

only_wallet :
    ((partial.wallet_info ≡ none) × (fetch_status partial blank ≡ blank))
    ⊎ ((wallet : ℕ) × (partial.wallet_info ≡ some wallet)
        × ((fetch_status partial blank ≡ record blank { wallet_info = some wallet })
            ⊎ IsRound wallet partial (fetch_status partial blank)))
only_wallet = fetch_status-all_or_first partial blank

abbrev complete : Answers ℕ
complete = record partial { car_upload_stats = some 4 }

abbrev all_shown : Shown ℕ
all_shown = record {
  wallet_info = some 1;
  groups = 2;
  crawl_state = 3;
  car_upload_stats = 4;
  reachable_providers = 5;
  deal_summary = 6;
  retr_stats = 7;
  retr_checker = 8;
  worker_stats = 9;
}

-- "Add" is clicked, an amount typed, and a first attempt fails.
abbrev clicks : List Event
clicks = click_add ∷ change [] ∷ settled false ∷ []

clicks_open : (run start clicks).dropdown_open ≡ true
unfolding run step handle_add_withdraw_click handle_amount_change end_submit
clicks_open = refl

-- The texts that are typed, all read as NaN.
abbrev no_number : Text → Number
no_number value = nan

run-submits_example :
    let t = run start clicks in
    (IsLastClick add clicks
      × (handle_submit no_number t ≡ wallet_market_add (amount_text no_number t.amount)))
    ⊎ (IsLastClick withdraw clicks
        × (handle_submit no_number t ≡ wallet_market_withdraw (amount_text no_number t.amount)))
run-submits_example = run-submits no_number clicks clicks_open

abbrev reading : ℕ → ℕ → Reading
reading counter time = record { counter = of_ℕ counter; time = of_ℕ time }

polled_runtime :
    (polls runtime_reply
      (timed_start (of_ℕ 7))
      (some (reading 0 9) ∷ none ∷ some (reading 5 99) ∷ [])).ema
    ≡ timed_rate pause_share (reading 0 9 ∷ reading 5 99 ∷ [])
polled_runtime = polls-runtime (of_ℕ 7) (some (reading 0 9) ∷ none ∷ some (reading 5 99) ∷ [])
