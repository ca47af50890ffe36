-- ===== src/Status/Rounds.antt =====
-- `fetchStatus` of routes/Status.js under its interval, which does not wait for the last round: several
-- rounds may be under way, each at one of its nine awaits, and the node answers them in any order.
use ribs.Base.{ℕ, suc, Option, none, some, List, [], ◌∷◌, ◌==◌, ltb, if◌then◌else◌}
use ribs.Status.Fetch.{Shown, Answers}

pub record Replies (Reply : Type 0) : Type 0 where
  pub wallet_info : Reply
  pub groups : Reply
  pub crawl_state : Reply
  pub car_upload_stats : Reply
  pub reachable_providers : Reply
  pub deal_summary : Reply
  pub retr_stats : Reply
  pub retr_checker_stats : Reply
  pub worker_stats : Reply

-- The await that a round is at, with the replies to the calls before it, or its end.
pub data Round (Reply : Type 0) : Type 0 where
  asks_wallet_info : Round Reply
  asks_groups : Reply → Round Reply
  asks_crawl_state : Reply → Reply → Round Reply
  asks_car_upload_stats : Reply → Reply → Reply → Round Reply
  asks_reachable_providers : Reply → Reply → Reply → Reply → Round Reply
  asks_deal_summary : Reply → Reply → Reply → Reply → Reply → Round Reply
  asks_retr_stats : Reply → Reply → Reply → Reply → Reply → Reply → Round Reply
  asks_retr_checker : Reply → Reply → Reply → Reply → Reply → Reply → Reply → Round Reply
  asks_worker_stats : Reply → Reply → Reply → Reply → Reply → Reply → Reply → Reply → Round Reply
  done : Replies Reply → Round Reply
  failed : Option Reply → Round Reply

module _ {Reply : Type 0} where
  -- The setters behind the last await.
  unfoldable pub set_rest : Replies Reply → Shown Reply → Shown Reply
  set_rest x s = record s {
    groups = x.groups;
    crawl_state = x.crawl_state;
    car_upload_stats = x.car_upload_stats;
    reachable_providers = x.reachable_providers;
    deal_summary = x.deal_summary;
    retr_stats = x.retr_stats;
    retr_checker = x.retr_checker_stats;
    worker_stats = x.worker_stats;
  }

  -- A reply to the call that a round waits for: what the round goes on to, up to its next await.
  unfoldable pub answer : Round Reply → Reply → Round Reply
  answer asks_wallet_info r = asks_groups r
  answer (asks_groups w) r = asks_crawl_state w r
  answer (asks_crawl_state w g) r = asks_car_upload_stats w g r
  answer (asks_car_upload_stats w g c) r = asks_reachable_providers w g c r
  answer (asks_reachable_providers w g c u) r = asks_deal_summary w g c u r
  answer (asks_deal_summary w g c u p) r = asks_retr_stats w g c u p r
  answer (asks_retr_stats w g c u p d) r = asks_retr_checker w g c u p d r
  answer (asks_retr_checker w g c u p d s) r = asks_worker_stats w g c u p d s r
  answer (asks_worker_stats w g c u p d s k) r = done (record {
    wallet_info = w;
    groups = g;
    crawl_state = c;
    car_upload_stats = u;
    reachable_providers = p;
    deal_summary = d;
    retr_stats = s;
    retr_checker_stats = k;
    worker_stats = r;
  })
  answer (done x) r = done x
  answer (failed w) r = failed w

  -- The reply to the first call of a round.
  unfoldable pub wallet_of : Round Reply → Option Reply
  wallet_of asks_wallet_info = none
  wallet_of (asks_groups w) = some w
  wallet_of (asks_crawl_state w g) = some w
  wallet_of (asks_car_upload_stats w g c) = some w
  wallet_of (asks_reachable_providers w g c u) = some w
  wallet_of (asks_deal_summary w g c u p) = some w
  wallet_of (asks_retr_stats w g c u p d) = some w
  wallet_of (asks_retr_checker w g c u p d s) = some w
  wallet_of (asks_worker_stats w g c u p d s k) = some w
  wallet_of (done x) = some x.wallet_info
  wallet_of (failed w) = w

  -- The setters that run with it: that of the wallet behind the first await, the others behind the last.
  unfoldable pub set_answered : Round Reply → Reply → Shown Reply → Shown Reply
  set_answered asks_wallet_info r t = record t { wallet_info = some r }
  set_answered (asks_groups w) r t = t
  set_answered (asks_crawl_state w g) r t = t
  set_answered (asks_car_upload_stats w g c) r t = t
  set_answered (asks_reachable_providers w g c u) r t = t
  set_answered (asks_deal_summary w g c u p) r t = t
  set_answered (asks_retr_stats w g c u p d) r t = t
  set_answered (asks_retr_checker w g c u p d s) r t = t
  set_answered (asks_worker_stats w g c u p d s k) r t =
      set_rest
        (record {
          wallet_info = w;
          groups = g;
          crawl_state = c;
          car_upload_stats = u;
          reachable_providers = p;
          deal_summary = d;
          retr_stats = s;
          retr_checker_stats = k;
          worker_stats = r;
        })
        t
  set_answered (done x) r t = t
  set_answered (failed w) r t = t

  -- The call that a round waits for throws; a round that has ended waits for none.
  unfoldable pub threw_at : Round Reply → Round Reply
  threw_at (done x) = done x
  threw_at q = failed (wallet_of q)

-- The first `started` rounds have begun.
pub record Page (Reply : Type 0) : Type 0 where
  pub started : ℕ
  pub rounds : ℕ → Round Reply
  pub shown : Shown Reply

pub data Event (Reply : Type 0) : Type 0 where
  tick : Event Reply
  answered : ℕ → Reply → Event Reply
  threw : ℕ → Event Reply

module _ {Reply : Type 0} where
  abbrev pub put : ℕ → Round Reply → (ℕ → Round Reply) → ℕ → Round Reply
  put i q rounds j = if j == i then q else rounds j

  -- The effect calls `fetchStatus` when the page is mounted, and the interval calls it at every tick.
  unfoldable pub step : Page Reply → Event Reply → Page Reply
  step p tick = record p {
    started = suc p.started;
    rounds = put p.started asks_wallet_info p.rounds;
  }
  step p (answered i r) =
      if ltb i p.started
      then record p {
        rounds = put i (answer (p.rounds i) r) p.rounds;
        shown = set_answered (p.rounds i) r p.shown;
      }
      else p
  step p (threw i) =
      if ltb i p.started then record p { rounds = put i (threw_at (p.rounds i)) p.rounds } else p

  unfoldable pub run : Page Reply → List (Event Reply) → Page Reply
  run p [] = p
  run p (e ∷ es) = run (step p e) es

  unfoldable pub mount : Shown Reply → Page Reply
  mount start = record { started = 1; rounds = λ j. asks_wallet_info; shown = start }

  -- What the nine calls of round `i` give, in their order, up to the first error.
  unfoldable pub round_events : ℕ → List (Option Reply) → List (Event Reply)
  round_events i [] = []
  round_events i (none ∷ os) = threw i ∷ []
  round_events i (some r ∷ os) = answered i r ∷ round_events i os

  abbrev pub calls : Answers Reply → List (Option Reply)
  calls a =
      a.wallet_info ∷ a.groups ∷ a.crawl_state ∷ a.car_upload_stats ∷ a.reachable_providers
      ∷ a.deal_summary ∷ a.retr_stats ∷ a.retr_checker_stats ∷ a.worker_stats ∷ []
