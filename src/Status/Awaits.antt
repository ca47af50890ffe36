-- ===== src/Status/Awaits.antt =====
-- One await of `fetchStatus` (routes/Status.js): what a reply or an error there changes.
use ribs.Base.{ℕ, ◌≡◌, ◌⊎◌, inl, inr, refl, none, some, ==_self}
use ribs.Status.Fetch.{Shown}
use ribs.Status.Rounds.{
  Replies, Round, done, failed, asks_wallet_info, asks_groups, asks_crawl_state,
  asks_car_upload_stats, asks_reachable_providers, asks_deal_summary, asks_retr_stats,
  asks_retr_checker, asks_worker_stats, set_rest, answer, wallet_of, set_answered, threw_at, put,
}

module _ {Reply : Type 0} where
  -- What the page shows but for the wallet.
  abbrev pub rest : Shown Reply → Shown Reply
  rest s = record s { wallet_info = none }

  -- That where all of it comes from the replies of one round.
  abbrev pub rest_of : Replies Reply → Shown Reply
  rest_of x = record {
    wallet_info = none;
    groups = x.groups;
    crawl_state = x.crawl_state;
    car_upload_stats = x.car_upload_stats;
    reachable_providers = x.reachable_providers;
    deal_summary = x.deal_summary;
    retr_stats = x.retr_stats;
    retr_checker = x.retr_checker_stats;
    worker_stats = x.worker_stats;
  }

  pub answer-rest :
      (q : Round Reply) (r : Reply) (s : Shown Reply)
      → (rest (set_answered q r s) ≡ rest s)
        ⊎ ((x : Replies Reply) × (answer q r ≡ done x) × (rest (set_answered q r s) ≡ rest_of x))
  unfolding answer set_answered set_rest
  answer-rest asks_wallet_info r s = inl refl
  answer-rest (asks_groups w) r s = inl refl
  answer-rest (asks_crawl_state w g) r s = inl refl
  answer-rest (asks_car_upload_stats w g c) r s = inl refl
  answer-rest (asks_reachable_providers w g c u) r s = inl refl
  answer-rest (asks_deal_summary w g c u p) r s = inl refl
  answer-rest (asks_retr_stats w g c u p d) r s = inl refl
  answer-rest (asks_retr_checker w g c u p d t) r s = inl refl
  answer-rest (asks_worker_stats w g c u p d t k) r s = inr (_, refl, refl)
  answer-rest (done x) r s = inl refl
  answer-rest (failed w) r s = inl refl

  -- A round that has ended stays as it is, and a round keeps its wallet.
  pub answer-done :
      (q : Round Reply) (r : Reply) (x : Replies Reply) → q ≡ done x → answer q r ≡ done x
  unfolding answer
  answer-done q r x e = rw e refl

  pub threw_at-done : (q : Round Reply) (x : Replies Reply) → q ≡ done x → threw_at q ≡ done x
  unfolding threw_at
  threw_at-done q x e = rw e refl

  pub answer-wallet :
      (q : Round Reply) (r : Reply) (s : Shown Reply)
      → ((set_answered q r s).wallet_info ≡ s.wallet_info)
        ⊎ ((wallet_of (answer q r) ≡ some r) × ((set_answered q r s).wallet_info ≡ some r))
  unfolding answer set_answered set_rest wallet_of
  answer-wallet asks_wallet_info r s = inr (refl, refl)
  answer-wallet (asks_groups w) r s = inl refl
  answer-wallet (asks_crawl_state w g) r s = inl refl
  answer-wallet (asks_car_upload_stats w g c) r s = inl refl
  answer-wallet (asks_reachable_providers w g c u) r s = inl refl
  answer-wallet (asks_deal_summary w g c u p) r s = inl refl
  answer-wallet (asks_retr_stats w g c u p d) r s = inl refl
  answer-wallet (asks_retr_checker w g c u p d t) r s = inl refl
  answer-wallet (asks_worker_stats w g c u p d t k) r s = inl refl
  answer-wallet (done x) r s = inl refl
  answer-wallet (failed w) r s = inl refl

  pub answer-wallet_of :
      (q : Round Reply) (r w : Reply) → wallet_of q ≡ some w → wallet_of (answer q r) ≡ some w
  unfolding answer wallet_of
  answer-wallet_of asks_wallet_info r w e = absurd cc
  answer-wallet_of (asks_groups v) r w e = e
  answer-wallet_of (asks_crawl_state v g) r w e = e
  answer-wallet_of (asks_car_upload_stats v g c) r w e = e
  answer-wallet_of (asks_reachable_providers v g c u) r w e = e
  answer-wallet_of (asks_deal_summary v g c u p) r w e = e
  answer-wallet_of (asks_retr_stats v g c u p d) r w e = e
  answer-wallet_of (asks_retr_checker v g c u p d t) r w e = e
  answer-wallet_of (asks_worker_stats v g c u p d t k) r w e = e
  answer-wallet_of (done x) r w e = e
  answer-wallet_of (failed v) r w e = e

  pub threw_at-wallet_of : (q : Round Reply) → wallet_of (threw_at q) ≡ wallet_of q
  unfolding threw_at wallet_of
  threw_at-wallet_of asks_wallet_info = refl
  threw_at-wallet_of (asks_groups v) = refl
  threw_at-wallet_of (asks_crawl_state v g) = refl
  threw_at-wallet_of (asks_car_upload_stats v g c) = refl
  threw_at-wallet_of (asks_reachable_providers v g c u) = refl
  threw_at-wallet_of (asks_deal_summary v g c u p) = refl
  threw_at-wallet_of (asks_retr_stats v g c u p d) = refl
  threw_at-wallet_of (asks_retr_checker v g c u p d t) = refl
  threw_at-wallet_of (asks_worker_stats v g c u p d t k) = refl
  threw_at-wallet_of (done x) = refl
  threw_at-wallet_of (failed v) = refl

  pub put_self : (i : ℕ) (q : Round Reply) (rounds : ℕ → Round Reply) → put i q rounds i ≡ q
  put_self i q rounds = rw (==_self i) refl
