-- ===== src/Status/Agreement.antt =====
-- The two models of `fetchStatus` (routes/Status.js), as a whole and await by await, agree.
use ribs.Base.{ℕ, ◌<◌, ◌≡◌, refl, ap, ◌∙◌, Option, none, some}
use ribs.Status.Fetch.{Shown, Answers, fetch_status, fetch_after, fetch_rest}
use ribs.Status.Rounds.{
  asks_wallet_info, answer, set_answered, set_rest, Page, run, round_events, calls,
}
use ribs.Status.Alone.{drive, run-drive}

module _ {Reply : Type 0} where
  drive-calls :
      (a : Answers Reply) (s : Shown Reply) → drive asks_wallet_info s (calls a) ≡ fetch_status a s
  unfolding answer set_answered set_rest fetch_status fetch_after fetch_rest
  drive-calls a s =
      by_reply a.wallet_info a.groups a.crawl_state a.car_upload_stats a.reachable_providers
        a.deal_summary a.retr_stats a.retr_checker_stats a.worker_stats
    where
      by_reply :
          (w g c u p d t k o : Option Reply)
          → let b : Answers Reply = record {
            wallet_info = w;
            groups = g;
            crawl_state = c;
            car_upload_stats = u;
            reachable_providers = p;
            deal_summary = d;
            retr_stats = t;
            retr_checker_stats = k;
            worker_stats = o;
          } in
            drive asks_wallet_info s (calls b) ≡ fetch_status b s
      by_reply none g c u p d t k o = refl
      by_reply (some w) none c u p d t k o = refl
      by_reply (some w) (some g) none u p d t k o = refl
      by_reply (some w) (some g) (some c) none p d t k o = refl
      by_reply (some w) (some g) (some c) (some u) none d t k o = refl
      by_reply (some w) (some g) (some c) (some u) (some p) none t k o = refl
      by_reply (some w) (some g) (some c) (some u) (some p) (some d) none k o = refl
      by_reply (some w) (some g) (some c) (some u) (some p) (some d) (some t) none o = refl
      by_reply (some w) (some g) (some c) (some u) (some p) (some d) (some t) (some k) none = refl
      by_reply (some w) (some g) (some c) (some u) (some p) (some d) (some t) (some k) (some o) =
          refl

  -- A round whose calls are answered in a row shows what `fetch_status` makes of these replies.
  round-fetch_status :
      (i : ℕ) (p : Page Reply) (a : Answers Reply)
      → i < p.started
      → p.rounds i ≡ asks_wallet_info
      → (run p (round_events i (calls a))).shown ≡ fetch_status a p.shown
  round-fetch_status i p a h e =
      run-drive i p (calls a) h ∙ ap (λ q. drive q p.shown (calls a)) e ∙ drive-calls a p.shown
