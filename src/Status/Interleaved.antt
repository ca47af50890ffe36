-- ===== src/Status/Interleaved.antt =====
-- The rounds of `fetchStatus` (routes/Status.js) in any interleaving.
use ribs.Base.{
  ℕ, ◌<◌, ◌≡◌, ◌⊎◌, inl, inr, refl, ap, ◌∙◌, some, List, [], ◌∷◌, ◌==◌, ltb, Bool-cases, arith,
  ==_ne, lt→ltb,
}
use ribs.Status.Fetch.{Shown}
use ribs.Status.Rounds.{
  Replies, Round, done, wallet_of, threw_at, Page, Event, tick, answered, threw, put, step, run,
  mount,
}
use ribs.Status.Awaits.{
  rest, rest_of, answer-rest, answer-done, threw_at-done, answer-wallet, answer-wallet_of,
  threw_at-wallet_of, put_self,
}

module _ {Reply : Type 0} where
  -- The rest is as at the start, or the replies of one round that has ended.
  abbrev pub RestFrom : Shown Reply → Page Reply → Type 0
  RestFrom first p =
      (rest p.shown ≡ rest first)
      ⊎ ((i : ℕ) × (x : Replies Reply) × (i < p.started)
          × (p.rounds i ≡ done x)
          × (rest p.shown ≡ rest_of x))

  -- The wallet is as at the start, or the first reply of a round.
  abbrev pub WalletFrom : Shown Reply → Page Reply → Type 0
  WalletFrom first p =
      (p.shown.wallet_info ≡ first.wallet_info)
      ⊎ ((i : ℕ) × (w : Reply) × (i < p.started)
          × (wallet_of (p.rounds i) ≡ some w)
          × (p.shown.wallet_info ≡ some w))

  -- A property of a round that a step keeps is kept when one round is replaced.
  put-keeps :
      (P : Round Reply → Type 0) (i j : ℕ) (q : Round Reply) (rounds : ℕ → Round Reply)
      → (P (rounds i) → P q)
      → P (rounds j)
      → P (put i q rounds j)
  put-keeps P i j q rounds f h = elim (Bool-cases (j == i)) [
    | inl e ↦ let same : j ≡ i = ground (arith, e) in rw e (f (rw same at h))
    | inr e ↦ rw e h
  ]

  -- The same for a tick, which puts a round behind those that have begun.
  put-before :
      (P : Round Reply → Type 0) (i n : ℕ) (q : Round Reply) (rounds : ℕ → Round Reply)
      → i < n
      → P (rounds i)
      → P (put n q rounds i)
  put-before P i n q rounds h k = rw (==_ne i n (omega arith)) k

  answered-RestFrom :
      (first : Shown Reply) (p : Page Reply) (i : ℕ) (r : Reply)
      → i < p.started
      → RestFrom first p
      → RestFrom first (step p (answered i r))
  unfolding step
  answered-RestFrom first p i r lt h = elim (answer-rest (p.rounds i) r p.shown) [
    | inr (x, e, shows) ↦
        rw (lt→ltb i p.started lt) (inr (i, x, lt, put_self i _ p.rounds ∙ e, shows))
    | inl same ↦ elim h [
      | inl blank ↦ rw (lt→ltb i p.started lt) (inl (same ∙ blank))
      | inr (j, x, started, e, shows) ↦ rw (lt→ltb i p.started lt) (
          inr (
            j,
            x,
            started,
            put-keeps (λ q. q ≡ done x) i j _ p.rounds (answer-done (p.rounds i) r x) e,
            same ∙ shows,
          ))
    ]
  ]

  step-RestFrom :
      (first : Shown Reply) (p : Page Reply) (e : Event Reply)
      → RestFrom first p
      → RestFrom first (step p e)
  unfolding step
  step-RestFrom first p tick (inl blank) = inl blank
  step-RestFrom first p tick (inr (i, x, lt, e, shows)) =
      inr (i, x, omega arith, put-before (λ q. q ≡ done x) i p.started _ p.rounds lt e, shows)
  step-RestFrom first p (answered i r) h = elim (Bool-cases (ltb i p.started)) [
    | inl e ↦ answered-RestFrom first p i r (ground (arith, e)) h
    | inr e ↦ rw e h
  ]
  step-RestFrom first p (threw i) h = elim (Bool-cases (ltb i p.started)) [
    | inl e ↦ rw e (threw_RestFrom h)
    | inr e ↦ rw e h
  ]
    where
      threw_RestFrom :
          RestFrom first p
          → RestFrom first (record p { rounds = put i (threw_at (p.rounds i)) p.rounds })
      threw_RestFrom (inl blank) = inl blank
      threw_RestFrom (inr (j, x, lt, e, shows)) = inr (
        j,
        x,
        lt,
        put-keeps (λ q. q ≡ done x) i j _ p.rounds (threw_at-done (p.rounds i) x) e,
        shows,
      )

  answered-WalletFrom :
      (first : Shown Reply) (p : Page Reply) (i : ℕ) (r : Reply)
      → i < p.started
      → WalletFrom first p
      → WalletFrom first (step p (answered i r))
  unfolding step
  answered-WalletFrom first p i r lt h = elim (answer-wallet (p.rounds i) r p.shown) [
    | inr (e, shows) ↦
        rw (lt→ltb i p.started lt) (inr (i, r, lt, ap wallet_of (put_self i _ p.rounds) ∙ e, shows))
    | inl same ↦ elim h [
      | inl blank ↦ rw (lt→ltb i p.started lt) (inl (same ∙ blank))
      | inr (j, w, started, e, shows) ↦ rw (lt→ltb i p.started lt) (
          inr (
            j,
            w,
            started,
            put-keeps (λ q. wallet_of q ≡ some w) i j _ p.rounds (answer-wallet_of (p.rounds i) r w)
                e,
            same ∙ shows,
          ))
    ]
  ]

  step-WalletFrom :
      (first : Shown Reply) (p : Page Reply) (e : Event Reply)
      → WalletFrom first p
      → WalletFrom first (step p e)
  unfolding step
  step-WalletFrom first p tick (inl blank) = inl blank
  step-WalletFrom first p tick (inr (i, w, lt, e, shows)) =
      inr (
        i,
        w,
        omega arith,
        put-before (λ q. wallet_of q ≡ some w) i p.started _ p.rounds lt e,
        shows,
      )
  step-WalletFrom first p (answered i r) h = elim (Bool-cases (ltb i p.started)) [
    | inl e ↦ answered-WalletFrom first p i r (ground (arith, e)) h
    | inr e ↦ rw e h
  ]
  step-WalletFrom first p (threw i) h = elim (Bool-cases (ltb i p.started)) [
    | inl e ↦ rw e (threw_WalletFrom h)
    | inr e ↦ rw e h
  ]
    where
      threw_WalletFrom :
          WalletFrom first p
          → WalletFrom first (record p { rounds = put i (threw_at (p.rounds i)) p.rounds })
      threw_WalletFrom (inl blank) = inl blank
      threw_WalletFrom (inr (j, w, lt, e, shows)) = inr (
        j,
        w,
        lt,
        put-keeps (λ q. wallet_of q ≡ some w) i j _ p.rounds
            (λ k. threw_at-wallet_of (p.rounds i) ∙ k) e,
        shows,
      )

  run-From :
      (first : Shown Reply) (p : Page Reply) (es : List (Event Reply))
      → RestFrom first p × WalletFrom first p
      → RestFrom first (run p es) × WalletFrom first (run p es)
  unfolding run
  run-From first p [] h = h
  run-From first p (e ∷ es) (r, w) =
      run-From first (step p e) es (step-RestFrom first p e r, step-WalletFrom first p e w)

  -- However the rounds of calls overlap, are answered and fail: all that the page shows but the wallet
  -- is as at the start, or each part of it is the reply of one and the same round to its call, and the
  -- nine calls of this round have been answered; and the wallet is as at the start or the first reply
  -- of a round.
  pub run-one_round :
      (first : Shown Reply) (es : List (Event Reply))
      → RestFrom first (run (mount first) es) × WalletFrom first (run (mount first) es)
  unfolding mount
  run-one_round first es = run-From first (mount first) es (inl refl, inl refl)
