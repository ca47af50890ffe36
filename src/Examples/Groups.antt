-- ===== src/Examples/Groups.antt =====
-- routes/Groups.js and routes/Content.js on concrete runs.
use ribs.Base.{
  ℕ, zero, suc, ◌+◌, ◌-◌, ◌<◌, ◌≡◌, ◌≢◌, refl, Bool, true, false, none, some, List, [], ◌∷◌, map,
  arith, length, keep, get_elem?, codes,
}
use ribs.Groups.Pages.{
  total_pages, page, button_page, button_label, shown, shown-total_pages, button_label-page,
}
use ribs.Groups.Deals.{DealInfo, deal_counts, sealed_only, deals_to_display, deal_counts-partition}
use ribs.Groups.Polling.{
  Meta, Event, tick, replies, error, mount, step, run, throttled, begin_fetch, end_fetch,
}
use ribs.Groups.Refresh.{tick-fetches, error-stops}
use ribs.Content.Page.{
  Page, answered, result, thrown, click, edit, nothing, shown_results, handle_group_click, items,
  is_card, find_cid, not_found, found, named, card,
}
use ribs.Content.Searches.{find_cid-shown}
use ribs.Content.Clicks.{run-error_alone, click-one_open}

abbrev count_up : ℕ → ℕ → List ℕ
count_up zero i = []
count_up (suc n) i = i ∷ count_up n (i + 1)

-- Groups 1 to `n`.
abbrev keys : ℕ → List ℕ
keys n = count_up n 1

shown-total_pages_example : shown (keys 35) 0 (total_pages (keys 35)) ≡ keys 35
shown-total_pages_example = shown-total_pages (keys 35)

two_pages : 0 < total_pages (keys 35)
unfolding total_pages
two_pages = omega arith

labelled :
    let p = page (keys 35) (button_page (keys 35) 0) in
    (0 < length p) × (button_label (keys 35) 0 ≡ (get_elem? p 0, get_elem? p (length p - 1)))
labelled = button_label-page (keys 35) 0 two_pages

abbrev deal : Bool → Bool → DealInfo
deal sealed failed = record {
  uuid = codes "u";
  provider = 1000;
  start_epoch = 3000000;
  end_epoch = 4000000;
  tx_size = 0;
  deal_id = 1;
  pub_cid = [];
  sealed = sealed;
  failed = failed;
  bytes_recv = 0;
  status = codes "Accepted";
  seal_status = [];
  error = [];
  retr_success = 0;
  retr_fail = 0;
  no_recent_success = false;
}

abbrev deals : List DealInfo
deals = deal true false ∷ deal false true ∷ deal false false ∷ deal true true ∷ []

deal_counts-partition_example :
    let c = deal_counts deals in
    (c.errors ≡ length (keep (λ d. d.failed) deals))
    × (c.sealed ≡ length (sealed_only deals))
    × (c.started + c.sealed + c.errors ≡ length deals)
    × (length (deals_to_display false deals) ≡ c.started + c.sealed)
    × (deals_to_display true deals ≡ deals)
deal_counts-partition_example = deal_counts-partition deals

abbrev meta : Meta
meta = record {
  state = 0;
  blocks = 1;
  max_blocks = 10;
  bytes = 100;
  max_bytes = 1000;
  piece_cid = [];
  root_cid = [];
}

-- A tick, the replies to it, and a tick 100 ms later, whose call waits.
abbrev ticks : List Event
ticks = tick 1000 ∷ replies meta [] 1200 ∷ []

ticks_clear : (run (mount 5) ticks).refreshing ≡ false
unfolding run step begin_fetch end_fetch throttled
ticks_clear = refl

tick-fetches_example :
    let c = run (mount 5) ticks in
    (c.pending ≡ 0)
    × ((step c (tick 1300)).pending ≡ 1)
    × ((step c (tick 1300)).requests ≡ c.requests + 1)
tick-fetches_example = tick-fetches 5 ticks 1300 ticks_clear

tick_waits : 0 < (run (mount 5) (tick 1000 ∷ [])).pending
unfolding run step begin_fetch throttled
tick_waits = omega arith

error-stops_example :
    let c = run (mount 5) (tick 1000 ∷ []) in
    let stopped = run (step c error) (tick 1500 ∷ tick 2000 ∷ []) in
    (stopped.requests ≡ c.requests) × (stopped.group ≡ c.group) × (stopped.pending ≡ 0)
error-stops_example = error-stops 5 (tick 1000 ∷ []) (tick 1500 ∷ tick 2000 ∷ []) tick_waits

-- A search that gives groups, and a second one that fails.
abbrev searches : List ribs.Content.Page.Event
searches =
    edit (codes "bafy")
    ∷ answered (codes "bafy") (result (some (3 ∷ 4 ∷ [])))
    ∷ click 1
    ∷ answered (codes "bafz") (thrown (codes "timeout"))
    ∷ []

searches_fail :
    (ribs.Content.Page.run ribs.Content.Page.start searches).error ≡ some (codes "timeout")
unfolding ribs.Content.Page.run ribs.Content.Page.step handle_group_click find_cid
searches_fail = refl

run-error_alone_example :
    shown_results (ribs.Content.Page.run ribs.Content.Page.start searches) ≡ nothing
run-error_alone_example = run-error_alone searches searches_fail

click_toggles :
    get_elem? (map is_card (items (handle_group_click 1 ribs.Content.Page.start) 0 (3 ∷ 4 ∷ []))) 1
    ≡ some true
click_toggles = click-one_open ribs.Content.Page.start 1 (3 ∷ 4 ∷ []) 1 (omega arith)

asked : codes "bafy" ≢ []
asked e = cc

find_cid-shown_example :
    let p = ribs.Content.Page.start in
    let null = find_cid (codes "bafy") (result none) p in
    let empty = find_cid (codes "bafy") (result (some [])) p in
    let listed = find_cid (codes "bafy") (result (some (3 ∷ 4 ∷ []))) p in
    let failed = find_cid (codes "bafy") (thrown (codes "timeout")) p in
    ((shown_results null ≡ nothing) × (null.error ≡ none))
    × ((shown_results empty ≡ not_found) × (empty.error ≡ none))
    × ((shown_results listed ≡ found [] (card 3 0 [] ∷ named 4 ∷ [])) × (listed.error ≡ none))
    × ((shown_results failed ≡ nothing) × (failed.error ≡ some (codes "timeout")))
    × (shown_results (ribs.Content.Page.step listed (edit (codes "x")))
        ≡ found (codes "x") (card 3 0 (codes "x") ∷ named 4 ∷ []))
find_cid-shown_example =
    find_cid-shown (codes "bafy") ribs.Content.Page.start 3 (4 ∷ []) (codes "timeout") (codes "x")
      asked
