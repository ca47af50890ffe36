-- ===== src/Status/Alone.antt =====
-- One round of `fetchStatus` (routes/Status.js) beside others, and the same round by itself.
use mathlib.Core.Path.{subst}
use ribs.Base.{
  ℕ, ◌<◌, ◌≡◌, ◌⊎◌, inl, inr, sym, refl, ap, ◌∙◌, Option, none, some, List, [], ◌∷◌, lt→ltb,
}
use ribs.Status.Fetch.{Shown, Answers, IsRound}
use ribs.Status.Rounds.{
  Round, asks_wallet_info, set_rest, answer, set_answered, Page, answered, put, step, run,
  round_events, calls,
}
use ribs.Status.Awaits.{put_self}

module _ {Reply : Type 0} where
  -- A round by itself, in terms of its replies alone.
  abbrev pub drive : Round Reply → Shown Reply → List (Option Reply) → Shown Reply
  drive q s [] = s
  drive q s (none ∷ os) = s
  drive q s (some r ∷ os) = drive (answer q r) (set_answered q r s) os

  pub step-answered :
      (i : ℕ) (p : Page Reply) (r : Reply)
      → i < p.started
      → step p (answered i r) ≡ record p {
        rounds = put i (answer (p.rounds i) r) p.rounds;
        shown = set_answered (p.rounds i) r p.shown;
      }
  unfolding step
  step-answered i p r h = rw (lt→ltb i p.started h) refl

  pub run-drive :
      (i : ℕ) (p : Page Reply) (os : List (Option Reply))
      → i < p.started
      → (run p (round_events i os)).shown ≡ drive (p.rounds i) p.shown os
  unfolding run step round_events
  run-drive i p [] h = refl
  run-drive i p (none ∷ os) h = rw (run, step, lt→ltb i p.started h) refl
  run-drive i p (some r ∷ os) h =
      let next : Page Reply = record p {
        rounds = put i (answer (p.rounds i) r) p.rounds;
        shown = set_answered (p.rounds i) r p.shown;
      } in
      ap (λ n. (run n (round_events i os)).shown) (step-answered i p r h)
      ∙ run-drive i next os h
      ∙ ap (λ q. drive q next.shown os) (put_self i _ p.rounds)

  -- One of the calls after the first throws.
  abbrev pub HasThrown : Answers Reply → Type 0
  HasThrown a =
      (a.groups ≡ none)
      ⊎ ((a.crawl_state ≡ none)
          ⊎ ((a.car_upload_stats ≡ none)
              ⊎ ((a.reachable_providers ≡ none)
                  ⊎ ((a.deal_summary ≡ none)
                      ⊎ ((a.retr_stats ≡ none)
                          ⊎ ((a.retr_checker_stats ≡ none) ⊎ (a.worker_stats ≡ none)))))))

  -- What a page that showed `s` shows behind a round: the same as before when the first call throws;
  -- when a later one does, the wallet of the first reply and the rest as before; else the nine replies.
  abbrev pub IsAfter : Answers Reply → Shown Reply → Shown Reply → Type 0
  IsAfter a s t =
      ((a.wallet_info ≡ none) × (t ≡ s))
      ⊎ ((wallet : Reply) × (a.wallet_info ≡ some wallet)
          × ((HasThrown a × (t ≡ record s { wallet_info = some wallet })) ⊎ IsRound wallet a t))

  drive-IsAfter :
      (a : Answers Reply) (s : Shown Reply) → IsAfter a s (drive asks_wallet_info s (calls a))
  unfolding answer set_answered set_rest
  drive-IsAfter a s =
      by_reply a.wallet_info a.groups a.crawl_state a.car_upload_stats a.reachable_providers
        a.deal_summary a.retr_stats a.retr_checker_stats a.worker_stats
    where
      by_reply :
          (w g c u p d t k o : Option Reply)
          → let b : Answers Reply = record {
            wallet_info = w;
            groups = g;
            crawl_state = c;
            car_upload_stats = u;
            reachable_providers = p;
            deal_summary = d;
            retr_stats = t;
            retr_checker_stats = k;
            worker_stats = o;
          } in
            IsAfter b s (drive asks_wallet_info s (calls b))
      by_reply none g c u p d t k o = inl (refl, refl)
      by_reply (some w) none c u p d t k o = inr (w, refl, inl (inl refl, refl))
      by_reply (some w) (some g) none u p d t k o = inr (w, refl, inl (inr (inl refl), refl))
      by_reply (some w) (some g) (some c) none p d t k o =
          inr (w, refl, inl (inr (inr (inl refl)), refl))
      by_reply (some w) (some g) (some c) (some u) none d t k o =
          inr (w, refl, inl (inr (inr (inr (inl refl))), refl))
      by_reply (some w) (some g) (some c) (some u) (some p) none t k o =
          inr (w, refl, inl (inr (inr (inr (inr (inl refl)))), refl))
      by_reply (some w) (some g) (some c) (some u) (some p) (some d) none k o =
          inr (w, refl, inl (inr (inr (inr (inr (inr (inl refl))))), refl))
      by_reply (some w) (some g) (some c) (some u) (some p) (some d) (some t) none o =
          inr (w, refl, inl (inr (inr (inr (inr (inr (inr (inl refl)))))), refl))
      by_reply (some w) (some g) (some c) (some u) (some p) (some d) (some t) (some k) none =
          inr (w, refl, inl (inr (inr (inr (inr (inr (inr (inr refl)))))), refl))
      by_reply (some w) (some g) (some c) (some u) (some p) (some d) (some t) (some k) (some o) =
          inr (w, refl, inr (refl, refl, refl, refl, refl, refl, refl, refl, refl))

  -- A round that has begun among others, whose calls give what they give without another event
  -- between: when the first throws, the page shows what it showed; when a later one throws, it shows
  -- the first reply as the wallet and else what it showed; when none throws, it shows the nine
  -- replies, each in its place.
  pub round-IsAfter :
      (i : ℕ) (p : Page Reply) (a : Answers Reply)
      → i < p.started
      → p.rounds i ≡ asks_wallet_info
      → IsAfter a p.shown (run p (round_events i (calls a))).shown
  round-IsAfter i p a h e =
      subst (IsAfter a p.shown)
        (sym (run-drive i p (calls a) h ∙ ap (λ q. drive q p.shown (calls a)) e))
        (drive-IsAfter a p.shown)
