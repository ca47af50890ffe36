-- ===== src/Rpc/Retry.antt =====
-- `RibsRPC.call` and `RibsRPC.callFil` (helpers/rpc.js): at most five attempts, a second apart.
-- What the node answers to each attempt is an argument.
use ribs.Base.{
  ℕ, zero, suc, ◌+◌, ◌-◌, ◌≤◌, ◌<◌, ◌≡◌, ◌≢◌, ◌⊎◌, inl, inr, Bool-cases, ==_iff, refl, List, [],
  ◌∷◌, ◌++◌, arith, ◌==◌, Text, codes, if◌then◌else◌, ==_ne, length,
}

-- The promise of one attempt.
pub data Answer (A E : Type 0) : Type 0 where
  ok : A → Answer A E
  failed : E → Answer A E

-- How a call ends: `undefined` would be the end of the loop without a `return` or a `throw`.
pub data Outcome (A E : Type 0) : Type 0 where
  returned : A → Outcome A E
  thrown : E → Outcome A E
  undefined : Outcome A E

abbrev pub max_retries : ℕ
max_retries = 5

abbrev pub delay : ℕ
delay = 1000

-- The outcome, and the delays in milliseconds that were waited for.
abbrev pub Run : Type 0 → Type 0 → Type 0
Run A E = Outcome A E × List ℕ

-- The delays of `k` rounds that failed.
abbrev pub waits : ℕ → List ℕ
waits zero = []
waits (suc k) = delay ∷ waits k

module _ {A E : Type 0} where
  abbrev wait : Run A E → Run A E
  wait r = (r.0, delay ∷ r.1)

  -- The rounds `i`, `i + 1`, ... of the loop, of which `left` are left.
  pub retry_loop : (ℕ → Answer A E) → ℕ → ℕ → Run A E
  retry_loop attempt zero i = (undefined, [])
  retry_loop attempt (suc left) i =
      let rest = retry_loop attempt left (i + 1) in
      elim (attempt i) [
        | ok a ↦ (returned a, [])
        | failed e ↦ if i == max_retries - 1 then (thrown e, []) else wait rest
      ]

  -- `server i method params` answers attempt `i`.
  unfoldable pub call : {P : Type 0} → (ℕ → Text → P → Answer A E) → Text → P → Run A E
  call server method params =
      retry_loop (λ i. server i (codes "RIBS." ++ method) params) max_retries 0

  unfoldable pub call_fil : {P : Type 0} → (ℕ → Text → P → Answer A E) → Text → P → Run A E
  call_fil server method params =
      retry_loop (λ i. server i (codes "Filecoin." ++ method) params) max_retries 0

  -- Attempts `i` up to and without `i + k` fail.
  abbrev pub Failing : (ℕ → Answer A E) → ℕ → ℕ → Type 0
  Failing attempt i k = (j : ℕ) → i ≤ j → j < i + k → (e : E) × (attempt j ≡ failed e)

  -- What the five attempts make of a call: the first one that succeeds, or the error of the last.
  abbrev pub IsFirst : (ℕ → Answer A E) → Run A E → Type 0
  IsFirst attempt r =
      ((k : ℕ) × (a : A) × (k < max_retries)
        × Failing attempt 0 k
        × (attempt k ≡ ok a)
        × (r ≡ (returned a, waits k)))
      ⊎ ((e : E) × Failing attempt 0 4 × (attempt 4 ≡ failed e) × (r ≡ (thrown e, waits 4)))

  Answer-cases : (r : Answer A E) → ((a : A) × (r ≡ ok a)) ⊎ ((e : E) × (r ≡ failed e))
  Answer-cases (ok a) = inl (a, refl)
  Answer-cases (failed e) = inr (e, refl)

  module _ (attempt : ℕ → Answer A E) where
    loop-ok :
        (k left i : ℕ) {a : A}
        → i + k < 5
        → k < left
        → Failing attempt i k
        → attempt (i + k) ≡ ok a
        → retry_loop attempt left i ≡ (returned a, waits k)
    unfolding retry_loop
    loop-ok k zero i h lt f g = absurd (omega arith)
    loop-ok zero (suc left) i h lt f g =
        let e : i + 0 ≡ i = omega arith in rw (rw e at g, retry_loop)
    loop-ok (suc k) (suc left) i h lt f g =
        let (e, failure) = f i (omega arith) (omega arith) in
        let shift : i + suc k ≡ i + 1 + k = omega arith in
        let rest =
          loop-ok k left (i + 1) (omega arith) (omega arith)
            (λ j low high. f j (omega arith) (omega arith)) (rw shift at g) in
        rw (failure, retry_loop, ==_ne i 4 (omega arith), rest)

    loop-thrown :
        (left i : ℕ) {e : E}
        → i + suc left ≡ 5
        → Failing attempt i left
        → attempt 4 ≡ failed e
        → retry_loop attempt (suc left) i ≡ (thrown e, waits left)
    unfolding retry_loop
    loop-thrown zero i {e} h f g =
        let last : i ≡ 4 = omega arith in
        let here : attempt i ≡ failed e = rw last g in rw (here, retry_loop, (==_iff i 4).1 last)
    loop-thrown (suc left) i {e} h f g =
        let (x, failure) = f i (omega arith) (omega arith) in
        let rest =
          loop-thrown left (i + 1) (omega arith) (λ j low high. f j (omega arith) (omega arith))
            g in
        rw (failure, retry_loop, ==_ne i 4 (omega arith), rest)

    loop-settles :
        (left i : ℕ)
        → i + suc left ≡ 5
        → ((retry_loop attempt (suc left) i).0 ≢ undefined)
          × (length (retry_loop attempt (suc left) i).1 ≤ left)
    unfolding retry_loop
    loop-settles zero i h = elim (Answer-cases (attempt i)) [
      | inl (a, e) ↦ rw (e, retry_loop) (λ u. cc, omega arith)
      | inr (x, e) ↦
          let last : i ≡ 4 = omega arith in
          rw (e, retry_loop, (==_iff i 4).1 last) (λ u. cc, omega arith)
    ]
    loop-settles (suc left) i h = elim (Answer-cases (attempt i)) [
      | inl (a, e) ↦ rw (e, retry_loop) (λ u. cc, omega arith)
      | inr (x, e) ↦
          let (ends, short) = loop-settles left (i + 1) (omega arith) in
          rw (e, retry_loop, ==_ne i 4 (omega arith)) (ends, omega arith)
    ]

    -- Either an attempt from 0 on, below `n`, is the first to succeed, or all of them fail.
    first_ok :
        (n : ℕ)
        → ((k : ℕ) × (a : A) × (k < n) × Failing attempt 0 k × (attempt k ≡ ok a))
          ⊎ Failing attempt 0 n
    first_ok zero = inr (λ j low high. absurd (omega arith))
    first_ok (suc n) = elim (first_ok n) [
      | inl (k, a, lt, f, e) ↦ inl (k, a, omega arith, f, e)
      | inr f ↦ elim (Answer-cases (attempt n)) [
        | inl (a, e) ↦ inl (n, a, omega arith, f, e)
        | inr (x, e) ↦ inr (Failing-suc n f x e)
      ]
    ]
      where
        Failing-suc :
            (n : ℕ)
            → Failing attempt 0 n
            → (x : E) → attempt n ≡ failed x
            → Failing attempt 0 (suc n)
        Failing-suc n f x e j low high = elim (Bool-cases (j == n)) [
          | inl same ↦ let at : j ≡ n = ground (arith, same) in (x, rw at e)
          | inr other ↦ f j low (ground (arith, other))
        ]

    retry_loop-IsFirst : IsFirst attempt (retry_loop attempt 5 0)
    retry_loop-IsFirst = elim (first_ok 5) [
      | inl (k, a, lt, f, e) ↦
          let shift : k ≡ 0 + k = omega arith in
          inl (k, a, lt, f, e, loop-ok k 5 0 (omega arith) (omega arith) f (rw shift at e))
      | inr f ↦
          let (x, e) = f 4 (omega arith) (omega arith) in
          let before : Failing attempt 0 4 = λ j low high. f j low (omega arith) in
          inr (x, before, e, loop-thrown 4 0 (omega arith) before e)
    ]

  module _ {P : Type 0} (server : ℕ → Text → P → Answer A E) (method : Text) (params : P) where
    abbrev pub ribs_attempt : ℕ → Answer A E
    ribs_attempt i = server i (codes "RIBS." ++ method) params

    abbrev pub fil_attempt : ℕ → Answer A E
    fil_attempt i = server i (codes "Filecoin." ++ method) params

    -- The first of five attempts that succeeds is the result, after a second for each that failed.
    pub call-returned :
        (k : ℕ) {a : A}
        → k < 5
        → Failing ribs_attempt 0 k
        → ribs_attempt k ≡ ok a
        → call server method params ≡ (returned a, waits k)
    unfolding call
    call-returned k h f g =
        let e : k ≡ 0 + k = omega arith in
        loop-ok ribs_attempt k 5 0 (omega arith) (omega arith) f (rw e at g)

    -- If all five attempts fail, the fifth error is thrown, after four waits.
    pub call-thrown :
        {e : E}
        → Failing ribs_attempt 0 4
        → ribs_attempt 4 ≡ failed e
        → call server method params ≡ (thrown e, waits 4)
    unfolding call
    call-thrown f g = loop-thrown ribs_attempt 4 0 (omega arith) f g

    -- Whatever the node answers, a call ends with a result or an error, after at most four waits.
    pub call-settles :
        ((call server method params).0 ≢ undefined)
        × (length (call server method params).1 ≤ 4)
        × ((call_fil server method params).0 ≢ undefined)
        × (length (call_fil server method params).1 ≤ 4)
    unfolding call call_fil
    call-settles =
        let (a, b) = loop-settles ribs_attempt 4 0 (omega arith) in
        let (c, d) = loop-settles fil_attempt 4 0 (omega arith) in (a, b, c, d)

    -- Whatever the node answers, a call of either kind ends with the result of the first of its five
    -- attempts that succeeds, after a second for each that failed before it, or, if all fail, with
    -- the fifth error after four waits.
    pub call-IsFirst :
        IsFirst ribs_attempt (call server method params)
        × IsFirst fil_attempt (call_fil server method params)
    unfolding call call_fil
    call-IsFirst = (retry_loop-IsFirst ribs_attempt, retry_loop-IsFirst fil_attempt)
