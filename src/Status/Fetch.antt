-- ===== src/Status/Fetch.antt =====
-- `Status` of routes/Status.js: its state and `fetchStatus`, which asks the node nine things one after
-- another. What a reply holds is a parameter: the page only hands it to its tiles.
use mathlib.Core.Option.{some-injective}
use mathlib.Core.Path.{subst}
use ribs.Base.{◌≡◌, refl, sym, ap, ◌⊎◌, inl, inr, Option-cases, Option, none, some}

pub record Shown (Reply : Type 0) : Type 0 where
  pub wallet_info : Option Reply
  pub groups : Reply
  pub crawl_state : Reply
  pub car_upload_stats : Reply
  pub reachable_providers : Reply
  pub deal_summary : Reply
  pub retr_stats : Reply
  pub retr_checker : Reply
  pub worker_stats : Reply

-- What each call gives, `none` when it throws.
pub record Answers (Reply : Type 0) : Type 0 where
  pub wallet_info : Option Reply
  pub groups : Option Reply
  pub crawl_state : Option Reply
  pub car_upload_stats : Option Reply
  pub reachable_providers : Option Reply
  pub deal_summary : Option Reply
  pub retr_stats : Option Reply
  pub retr_checker_stats : Option Reply
  pub worker_stats : Option Reply

infixl 5 ◌>>=◌
abbrev ◌>>=◌ {κ ℓ} : {A : Type κ} {B : Type ℓ} → Option A → (A → Option B) → Option B
none >>= f = none
some a >>= f = f a

bind-some {κ ℓ} :
    {A : Type κ} {B : Type ℓ} (m : Option A) (f : A → Option B) {b : B}
    → (m >>= f) ≡ some b
    → (a : A) × (m ≡ some a) × (f a ≡ some b)
bind-some none f h = absurd cc
bind-some (some a) f h = (a, refl, h)

module _ {Reply : Type 0} where
  -- What a page that opens shows before the first reply; `{}`, `[]` and `""` are `blank`.
  abbrev pub start : Reply → Shown Reply
  start blank = record {
    wallet_info = none;
    groups = blank;
    crawl_state = blank;
    car_upload_stats = blank;
    reachable_providers = blank;
    deal_summary = blank;
    retr_stats = blank;
    retr_checker = blank;
    worker_stats = blank;
  }

  -- The calls after the first, and the setters after them.
  unfoldable pub fetch_rest : Answers Reply → Shown Reply → Option (Shown Reply)
  fetch_rest a s = do
    groups ← a.groups
    crawl_state ← a.crawl_state
    car_upload_stats ← a.car_upload_stats
    reachable_providers ← a.reachable_providers
    deal_summary ← a.deal_summary
    retr_stats ← a.retr_stats
    retr_checker_stats ← a.retr_checker_stats
    worker_stats ← a.worker_stats
    some (record {
      wallet_info = s.wallet_info;
      groups = groups;
      crawl_state = crawl_state;
      car_upload_stats = car_upload_stats;
      reachable_providers = reachable_providers;
      deal_summary = deal_summary;
      retr_stats = retr_stats;
      retr_checker = retr_checker_stats;
      worker_stats = worker_stats;
    })

  -- The same with the handler of errors, which only logs them.
  unfoldable pub fetch_after : Answers Reply → Shown Reply → Shown Reply
  fetch_after a s = elim (fetch_rest a s) [ none ↦ s | some shown ↦ shown ]

  -- `fetchStatus`.
  unfoldable pub fetch_status : Answers Reply → Shown Reply → Shown Reply
  fetch_status a s = elim a.wallet_info [
    | none ↦ s
    | some wallet_info ↦ fetch_after a (record s { wallet_info = some wallet_info })
  ]

  -- Everything that a page shows comes from one round of calls, the first of which gave `wallet`.
  abbrev pub IsRound : Reply → Answers Reply → Shown Reply → Type 0
  IsRound wallet a s =
      (s.wallet_info ≡ some wallet)
      × (a.groups ≡ some s.groups)
      × (a.crawl_state ≡ some s.crawl_state)
      × (a.car_upload_stats ≡ some s.car_upload_stats)
      × (a.reachable_providers ≡ some s.reachable_providers)
      × (a.deal_summary ≡ some s.deal_summary)
      × (a.retr_stats ≡ some s.retr_stats)
      × (a.retr_checker_stats ≡ some s.retr_checker)
      × (a.worker_stats ≡ some s.worker_stats)

  fetch_rest-IsRound :
      (a : Answers Reply) (s : Shown Reply) (wallet : Reply) {t : Shown Reply}
      → s.wallet_info ≡ some wallet
      → fetch_rest a s ≡ some t
      → IsRound wallet a t
  unfolding fetch_rest
  fetch_rest-IsRound a s wallet w h0 =
      let (x1, e1, h1) = bind-some a.groups _ h0 in
      let (x2, e2, h2) = bind-some a.crawl_state _ h1 in
      let (x3, e3, h3) = bind-some a.car_upload_stats _ h2 in
      let (x4, e4, h4) = bind-some a.reachable_providers _ h3 in
      let (x5, e5, h5) = bind-some a.deal_summary _ h4 in
      let (x6, e6, h6) = bind-some a.retr_stats _ h5 in
      let (x7, e7, h7) = bind-some a.retr_checker_stats _ h6 in
      let (x8, e8, h8) = bind-some a.worker_stats _ h7 in
      let at = some-injective _ _ h8 in
      subst (IsRound wallet a) at (w, e1, e2, e3, e4, e5, e6, e7, e8)

  fetch_after-IsRound :
      (a : Answers Reply) (s : Shown Reply) (wallet : Reply)
      → s.wallet_info ≡ some wallet
      → (fetch_after a s ≡ s) ⊎ IsRound wallet a (fetch_after a s)
  unfolding fetch_after
  fetch_after-IsRound a s wallet w = elim (Option-cases (fetch_rest a s)) [
    | inl n ↦ inl (rw (n, fetch_after))
    | inr (t, h) ↦ inr (rw (h, fetch_after) (fetch_rest-IsRound a s wallet w h))
  ]

  fetch_status-some :
      (a : Answers Reply) (s : Shown Reply) (wallet : Reply)
      → a.wallet_info ≡ some wallet
      → fetch_status a s ≡ fetch_after a (record s { wallet_info = some wallet })
  unfolding fetch_status
  fetch_status-some a s wallet e =
      ap
        (λ o. elim o as (λ x. Shown Reply) [
          | none ↦ s
          | some w ↦ fetch_after a (record s { wallet_info = some w })
        ])
        e

  -- A round of calls either shows all nine replies, or, when one of the calls after the first throws,
  -- nothing but the wallet of the first, or, when the first throws, nothing at all.
  pub fetch_status-all_or_first :
      (a : Answers Reply) (s : Shown Reply)
      → ((a.wallet_info ≡ none) × (fetch_status a s ≡ s))
        ⊎ ((wallet : Reply) × (a.wallet_info ≡ some wallet)
            × ((fetch_status a s ≡ record s { wallet_info = some wallet })
                ⊎ IsRound wallet a (fetch_status a s)))
  unfolding fetch_status
  fetch_status-all_or_first a s = elim (Option-cases a.wallet_info) [
    | inl e ↦ inl (e, rw e)
    | inr (w, e) ↦
        let first : Shown Reply = record s { wallet_info = some w } in
        inr (
          w,
          e,
          subst (λ t. (t ≡ first) ⊎ IsRound w a t) (sym (fetch_status-some a s w e))
              (fetch_after-IsRound a first w refl),
        )
  ]

  -- When all nine calls give a reply, the page shows the nine replies.
  fetch_status_complete :
      (a : Answers Reply) (s t : Shown Reply) (wallet : Reply)
      → a.wallet_info ≡ some wallet
      → IsRound wallet a t
      → fetch_status a s ≡ t
  unfolding fetch_status fetch_after fetch_rest
  fetch_status_complete a s t wallet e (w, e1, e2, e3, e4, e5, e6, e7, e8) =
      rw (e, e1, e2, e3, e4, e5, e6, e7, e8) (ap (λ i. record t { wallet_info = i }) (sym w))
