-- ===== src/RepairPage/Rates.antt =====
-- The rates of the workers of routes/Repair.js.
use mathlib.Core.Path.{subst}
use ribs.Base.{
  ℕ, ◌≡◌, ◌≢◌, refl, sym, ap, ◌∙◌, inl, inr, Option, none, some, List, [], ◌∷◌, arith, ◌==◌, ==_ne,
  ==_iff, Option-cases, Bool-cases,
}
use ribs.Number.Defs.{Number, or_zero, or_nan}
use ribs.Fmt.Units.{calc_ema}
use ribs.Status.Meter.{smoothing_factor}
use ribs.Status.Upload.{lookup}
use ribs.Status.UploadRates.{Fresh, IsObject, lookup-insert_ne, lookup-insert_self}
use ribs.RepairPage.Page.{
  WorkerState, QueueStats, Repair, fetch_rate, rate_worker, rate_workers, elapsed_time, run_effect,
  set_queue, fetch_worker_states,
}

-- The average of one worker, from its state now and before: it changes when both are there.
abbrev pub rated : Option WorkerState → Option WorkerState → Number → Option Number → Option Number
rated none before elapsed ema = ema
rated (some now) none elapsed ema = ema
rated (some now) (some before) elapsed ema =
    some (calc_ema (fetch_rate now before elapsed) (or_zero (or_nan ema)) smoothing_factor)

lookup-Fresh {ℓ} : {V : Type ℓ} (k : ℕ) (m : List (ℕ × V)) → Fresh k m → lookup k m ≡ none
lookup-Fresh k [] f = refl
lookup-Fresh k ((j, v) ∷ m) (ne, f) = rw (==_ne j k ne, lookup-Fresh k m f)

module _ (prev : List (ℕ × WorkerState)) (elapsed : Number) where
  rate_worker-ne :
      (emas : List (ℕ × Number)) (j : ℕ) (w : WorkerState) (k : ℕ)
      → j ≢ k
      → lookup k (rate_worker prev elapsed emas (j, w)) ≡ lookup k emas
  unfolding rate_worker
  rate_worker-ne emas j w k ne = elim (Option-cases (lookup j prev)) [
    | inl e ↦ rw (e, rate_worker)
    | inr (b, e) ↦ rw (e, rate_worker) (lookup-insert_ne j k _ emas ne)
  ]

  rate_worker_self :
      (emas : List (ℕ × Number)) (k : ℕ) (w : WorkerState)
      → lookup k (rate_worker prev elapsed emas (k, w))
        ≡ rated (some w) (lookup k prev) elapsed (lookup k emas)
  unfolding rate_worker
  rate_worker_self emas k w = elim (Option-cases (lookup k prev)) [
    | inl e ↦ rw (e, rate_worker)
    | inr (b, e) ↦ rw (e, rate_worker) (lookup-insert_self k _ emas)
  ]

  rate_workers-Fresh :
      (ws : List (ℕ × WorkerState)) (emas : List (ℕ × Number)) (k : ℕ)
      → Fresh k ws
      → lookup k (rate_workers prev elapsed emas ws) ≡ lookup k emas
  unfolding rate_workers
  rate_workers-Fresh [] emas k f = refl
  rate_workers-Fresh ((j, w) ∷ ws) emas k (ne, f) =
      rate_workers-Fresh ws (rate_worker prev elapsed emas (j, w)) k f
      ∙ rate_worker-ne emas j w k ne

  rate_workers-here :
      (ws : List (ℕ × WorkerState)) (emas : List (ℕ × Number)) (j k : ℕ) (w : WorkerState)
      → j ≡ k
      → Fresh j ws
      → lookup k (rate_workers prev elapsed (rate_worker prev elapsed emas (j, w)) ws)
        ≡ rated (some w) (lookup k prev) elapsed (lookup k emas)
  rate_workers-here ws emas j k w e f =
      rate_workers-Fresh ws (rate_worker prev elapsed emas (j, w)) k (subst (λ i. Fresh i ws) e f)
      ∙ subst
          (λ i.
            lookup k (rate_worker prev elapsed emas (i, w))
            ≡ rated (some w) (lookup k prev) elapsed (lookup k emas))
          (sym e) (rate_worker_self emas k w)

  rate_workers-rated :
      (ws : List (ℕ × WorkerState)) (emas : List (ℕ × Number)) (k : ℕ)
      → IsObject ws
      → lookup k (rate_workers prev elapsed emas ws)
        ≡ rated (lookup k ws) (lookup k prev) elapsed (lookup k emas)
  unfolding rate_workers
  rate_workers-rated [] emas k o = refl
  rate_workers-rated ((j, w) ∷ ws) emas k (f, o) = elim (Bool-cases (j == k)) [
    | inl e ↦ rw e (rate_workers-here ws emas j k w ((==_iff j k).0 e) f)
    | inr e ↦
        let same = rate_worker-ne emas j w k (λ q. absurd (grind arith)) in
        rw e (
          rate_workers-rated ws (rate_worker prev elapsed emas (j, w)) k o
          ∙ ap (rated (lookup k ws) (lookup k prev) elapsed) same)
  ]

set_queue-same :
    (q : Option QueueStats) (s : Repair)
    → ((set_queue q s).rate_emas ≡ s.rate_emas)
      × ((set_queue q s).prev_worker_states ≡ s.prev_worker_states)
      × ((set_queue q s).worker_states ≡ s.worker_states)
      × ((set_queue q s).prev_fetch_time ≡ s.prev_fetch_time)
set_queue-same none s = (refl, refl, refl, refl)
set_queue-same (some q) s = (refl, refl, refl, refl)

-- A reply to "RepairStats" that has each worker once, whatever comes of "RepairQueue" then: every worker
-- that is in it and was in the last reply gets the average of its bytes per second since then, from
-- zero when it had none; the others keep theirs, and the next reply is compared with this one.
pub fetch_worker_states-rated :
    (ws : List (ℕ × WorkerState)) (q : Option QueueStats) (now : Number) (s : Repair) (k : ℕ)
    → IsObject ws
    → let s' = fetch_worker_states (some ws) q now s in
      (lookup k s'.rate_emas
        ≡ rated
            (lookup k ws)
            (lookup k s.prev_worker_states)
            (elapsed_time s now)
            (lookup k s.rate_emas))
      × (s'.prev_worker_states ≡ ws)
      × (s'.worker_states ≡ ws)
      × (s'.prev_fetch_time ≡ now)
unfolding fetch_worker_states run_effect
fetch_worker_states-rated ws q now s k o =
    let (emas, prev, shown, time) =
      set_queue-same q (run_effect now (record s { worker_states = ws })) in
    (
      ap (lookup k) emas
          ∙ rate_workers-rated s.prev_worker_states (elapsed_time s now) ws s.rate_emas k o,
      prev,
      shown,
      time,
    )
