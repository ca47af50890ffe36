-- ===== src/Status/Late.antt =====
-- A round of `fetchStatus` (routes/Status.js) that ends while others go on or have ended.
use ribs.Base.{
  ℕ, ◌<◌, ◌≡◌, refl, sym, ap, ◌∙◌, inl, inr, Option, none, some, List, [], ◌∷◌, ◌++◌, ◌==◌, ltb,
  if◌then◌else◌, Bool-cases, arith, ==_ne, ==_iff,
}
use ribs.Status.Rounds.{
  Replies, Round, asks_wallet_info, set_rest, answer, set_answered, threw_at, Page, Event, tick,
  answered, threw, step, run,
}
use ribs.Status.Awaits.{rest, rest_of}
use ribs.Status.Alone.{step-answered}

module _ {Reply : Type 0} where
  -- What an event gives to round `i`, none for an error; and what several events give to it.
  abbrev replies_of : ℕ → Event Reply → List (Option Reply)
  replies_of i tick = []
  replies_of i (answered j r) = if i == j then some r ∷ [] else []
  replies_of i (threw j) = if i == j then none ∷ [] else []

  abbrev pub replies_to : ℕ → List (Event Reply) → List (Option Reply)
  replies_to i [] = []
  replies_to i (e ∷ es) = replies_of i e ++ replies_to i es

  -- A round after such replies.
  abbrev follow : Round Reply → List (Option Reply) → Round Reply
  follow q [] = q
  follow q (some r ∷ os) = follow (answer q r) os
  follow q (none ∷ os) = follow (threw_at q) os

  follow-append :
      (q : Round Reply) (os ps : List (Option Reply))
      → follow q (os ++ ps) ≡ follow (follow q os) ps
  follow-append q [] ps = refl
  follow-append q (some r ∷ os) ps = follow-append (answer q r) os ps
  follow-append q (none ∷ os) ps = follow-append (threw_at q) os ps

  -- An event of round `j` that changes it by `f`, as round `i` sees it.
  put-follow :
      (i j : ℕ) (rounds : ℕ → Round Reply) (f : Round Reply → Round Reply) (o : Option Reply)
      → f (rounds i) ≡ follow (rounds i) (o ∷ [])
      → (if i == j then f (rounds j) else rounds i)
        ≡ follow (rounds i) (if i == j then o ∷ [] else [])
  put-follow i j rounds f o h = elim (Bool-cases (i == j)) [
    | inl same ↦ rw same (ap (λ k. f (rounds k)) (sym ((==_iff i j).0 same)) ∙ h)
    | inr other ↦ rw other refl
  ]

  step-follow :
      (i : ℕ) (p : Page Reply) (e : Event Reply)
      → i < p.started
      → ((step p e).rounds i ≡ follow (p.rounds i) (replies_of i e)) × (i < (step p e).started)
  unfolding step
  step-follow i p tick h = (rw (==_ne i p.started (omega arith)) refl, omega arith)
  step-follow i p (answered j r) h = elim (Bool-cases (ltb j p.started)) [
    | inl e ↦ rw e (put-follow i j p.rounds (λ q. answer q r) (some r) refl, h)
    | inr e ↦ rw (e, ==_ne i j (ground (arith, e))) (refl, h)
  ]
  step-follow i p (threw j) h = elim (Bool-cases (ltb j p.started)) [
    | inl e ↦ rw e (put-follow i j p.rounds threw_at none refl, h)
    | inr e ↦ rw (e, ==_ne i j (ground (arith, e))) (refl, h)
  ]

  -- A round depends on the replies to its own calls alone.
  run-follow :
      (i : ℕ) (p : Page Reply) (es : List (Event Reply))
      → i < p.started
      → ((run p es).rounds i ≡ follow (p.rounds i) (replies_to i es)) × (i < (run p es).started)
  unfolding run
  run-follow i p [] h = (refl, h)
  run-follow i p (e ∷ es) h =
      let (here, lt) = step-follow i p e h in
      let (later, lt') = run-follow i (step p e) es lt in
      (
        later
            ∙ ap (λ q. follow q (replies_to i es)) here
            ∙ sym (follow-append (p.rounds i) (replies_of i e) (replies_to i es)),
        lt',
      )

  run-append : (p : Page Reply) (es fs : List (Event Reply)) → run p (es ++ fs) ≡ run (run p es) fs
  unfolding run
  run-append p [] fs = refl
  run-append p (e ∷ es) fs = run-append (step p e) es fs

  run-last : (p : Page Reply) (e : Event Reply) → run p (e ∷ []) ≡ step p e
  unfolding run
  run-last p e = refl

  -- The replies to all calls but the last.
  abbrev pub first_eight : Replies Reply → List (Option Reply)
  first_eight x =
      some x.wallet_info
      ∷ some x.groups
      ∷ some x.crawl_state
      ∷ some x.car_upload_stats
      ∷ some x.reachable_providers
      ∷ some x.deal_summary
      ∷ some x.retr_stats
      ∷ some x.retr_checker_stats
      ∷ []

  last_reply :
      (x : Replies Reply) (q : Round Reply) (s : ribs.Status.Fetch.Shown Reply)
      → q ≡ follow asks_wallet_info (first_eight x)
      → rest (set_answered q x.worker_stats s) ≡ rest_of x
  unfolding answer set_answered set_rest
  last_reply x q s e = rw e refl

  -- Whatever other rounds begin, are answered, fail or end in the meantime, older ones and newer ones:
  -- when a round that waited for its first reply has had its nine replies, the page shows, but for the
  -- wallet, these replies, each in its place. So an old round that is late takes the place of a newer
  -- one that has ended before it.
  pub late-round :
      (i : ℕ) (p : Page Reply) (es : List (Event Reply)) (x : Replies Reply)
      → i < p.started
      → p.rounds i ≡ asks_wallet_info
      → replies_to i es ≡ first_eight x
      → rest (run p (es ++ answered i x.worker_stats ∷ [])).shown ≡ rest_of x
  late-round i p es x h e replies =
      let q = run p es in
      let (here, lt) = run-follow i p es h in
      let at : q.rounds i ≡ follow asks_wallet_info (first_eight x) =
        here ∙ ap (λ r. follow r (replies_to i es)) e ∙ ap (follow asks_wallet_info) replies in
      ap (λ (s : Page Reply). rest s.shown)
        (run-append p es (answered i x.worker_stats ∷ [])
          ∙ run-last q (answered i x.worker_stats)
          ∙ step-answered i q x.worker_stats lt)
      ∙ last_reply x (q.rounds i) q.shown at
