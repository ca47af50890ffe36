-- ===== src/Polling/Load.antt =====
-- How often the pages of routes/ ask the node, through the retries of helpers/rpc.js.
use native.Mathlib.Nat.{le-div_iff_mul-le, le_trans, mul-le-mul_right, suc-mul}
use ribs.Base.{
  ℕ, zero, suc, ◌+◌, ◌*◌, ◌/◌, ◌≤◌, ◌<◌, ◌≡◌, refl, ◌∙◌, ap, inl, inr, List, [], ◌∷◌, arith, length,
  true, false, Bool, All, if◌then◌else◌,
}
use ribs.Rpc.Retry.{Answer, returned, thrown, undefined, waits, IsFirst, call-IsFirst}
use ribs.Polling.Effects.{
  Call, to_ribs, to_fil, Effect, status_page, Event, tick, unmount, Poller, mount, step, run, Node,
  request, attempts, load,
}

-- Ticks are at least a period apart, as `setInterval` is documented, and not after `until`.
abbrev pub IsSpaced : ℕ → ℕ → ℕ → List ℕ → Type 0
IsSpaced period last until [] = last ≤ until
IsSpaced period last until (t ∷ ts) = (last + period ≤ t) × IsSpaced period t until ts

IsSpaced-length :
    (period last until : ℕ) (ts : List ℕ)
    → IsSpaced period last until ts
    → last + length ts * period ≤ until
IsSpaced-length period last until [] h = let e : 0 * period ≡ 0 = omega arith in omega arith
IsSpaced-length period last until (t ∷ ts) (h, k) =
    let rest = IsSpaced-length period t until ts k in
    let e : suc (length ts) * period ≡ length ts * period + period = suc-mul (length ts) period in
    omega arith

length-waits : (k : ℕ) → length (waits k) ≡ k
length-waits zero = refl
length-waits (suc k) = ap suc (length-waits k)

module _ {A E : Type 0} where
  IsFirst-waits : (attempt : ℕ → Answer A E) (r : _) → IsFirst attempt r → length (r.1) ≤ 4
  IsFirst-waits attempt r f = elim f [
    | inl (k, a, lt, g, e, same) ↦ rw same (let w = length-waits k in omega arith)
    | inr (x, g, e, same) ↦ rw same (let w = length-waits 4 in omega arith)
  ]

  request-waits : (node : Node A E) (c : Call) → length (request node c).1 ≤ 4
  request-waits node (to_ribs m) = IsFirst-waits _ _ (call-IsFirst node m tt).0
  request-waits node (to_fil m) = IsFirst-waits _ _ (call-IsFirst node m tt).1

  attempts-le : (node : Node A E) (cs : List Call) → attempts node cs ≤ 5 * length cs
  unfolding attempts
  attempts-le node [] = omega arith
  attempts-le node (c ∷ cs) =
      let here = request-waits node c in
      let rest = attempts-le node cs in
      elim (request node c).0
        as (λ o.
          suc (length (request node c).1) + (elim o as (λ x. ℕ) [
            | returned a ↦ attempts node cs
            | thrown e ↦ 0
            | undefined ↦ attempts node cs
          ])
          ≤ 5 * suc (length cs)) [
            | returned a ↦ omega arith
            | thrown e ↦ omega arith
            | undefined ↦ omega arith
          ]

  load-le :
      (node : ℕ → Node A E) (cs : List Call) (rounds : ℕ)
      → load node cs rounds ≤ rounds * (5 * length cs)
  unfolding load
  load-le node cs zero = omega arith
  load-le node cs (suc rounds) =
      let before = load-le node cs rounds in
      let last = attempts-le (node rounds) cs in
      let e = suc-mul rounds (5 * length cs) in omega arith

-- The life of a component: the ticks while it is there, and what comes after it has gone.
abbrev pub life : List ℕ → List Event → List Event
life [] late = unmount ∷ late
life (t ∷ ts) late = tick ∷ life ts late

if_false : {A : Type 0} (b : Bool) (x y : A) → b ≡ false → (if b then x else y) ≡ y
if_false b x y e = rw e refl

run-gone : (p : Poller) (es : List Event) → p.interval_set ≡ false → (run p es).rounds ≡ p.rounds
unfolding run step
run-gone p [] e = refl
run-gone p (tick ∷ es) e =
    ap (λ q. (run q es).rounds) (if_false p.interval_set _ p e) ∙ run-gone p es e
run-gone p (unmount ∷ es) e = run-gone (record p { interval_set = false }) es refl

run-life :
    (p : Poller) (ts : List ℕ) (late : List Event)
    → p.interval_set ≡ true
    → (run p (life ts late)).rounds ≡ p.rounds + length ts
unfolding run step
run-life p [] late e = run-gone (record p { interval_set = false }) late refl ∙ omega arith
run-life p (t ∷ ts) late e =
    let next : Poller = record p { rounds = suc p.rounds } in
    ap (λ q. (run q (life ts late)).rounds) (step-tick p e) ∙ run-life next ts late e ∙ omega arith
  where
    step-tick :
        (p : Poller) → p.interval_set ≡ true → step p tick ≡ record p { rounds = suc p.rounds }
    step-tick p e = rw e refl

module _ {A E : Type 0} where
  -- The attempts of an effect over its life.
  abbrev pub life_load : (ℕ → Node A E) → Effect → List ℕ → List Event → ℕ
  life_load node e ts late = load node e.calls (run mount (life ts late)).rounds

  life_load-le :
      (node : ℕ → Node A E) (e : Effect) (until : ℕ) (ts : List ℕ) (late : List Event)
      → 0 < e.period
      → IsSpaced e.period 0 until ts
      → life_load node e ts late ≤ (1 + until / e.period) * (5 * length e.calls)
  unfolding mount
  life_load-le node e until ts late pos h =
      let most : length ts ≤ until / e.period =
        (le-div_iff_mul-le pos).1 (let l = IsSpaced-length e.period 0 until ts h in omega arith) in
      let bound = load-le node e.calls (1 + length ts) in
      rw (run-life mount ts late refl)
        (le_trans bound (mul-le-mul_right (5 * length e.calls) (let m = most in omega arith)))

page_bound : ℕ → List Effect → ℕ
page_bound until [] = 0
page_bound until (e ∷ es) = (1 + until / e.period) * (5 * length e.calls) + page_bound until es

-- An effect of a page with the node that it asks, its ticks and what comes after its end.
pub record Life (A E : Type 0) : Type 0 where
  pub node : ℕ → Node A E
  pub ticks : List ℕ
  pub late : List Event

module _ {A E : Type 0} where
  -- The attempts of several effects.
  abbrev pub page_load : (ℕ → Life A E) → ℕ → List Effect → ℕ
  page_load lives i [] = 0
  page_load lives i (e ∷ es) =
      life_load (lives i).node e (lives i).ticks (lives i).late + page_load lives (suc i) es

  abbrev pub AreSpaced : (ℕ → Life A E) → ℕ → ℕ → List Effect → Type 0
  AreSpaced lives until i [] = Unit {0}
  AreSpaced lives until i (e ∷ es) =
      IsSpaced e.period 0 until (lives i).ticks × AreSpaced lives until (suc i) es

  page_load-le :
      (lives : ℕ → Life A E) (until i : ℕ) (es : List Effect)
      → All (λ e. 0 < e.period) es
      → AreSpaced lives until i es
      → page_load lives i es ≤ page_bound until es
  unfolding page_bound
  page_load-le lives until i [] pos h = omega arith
  page_load-le lives until i (e ∷ es) (p, pos) (s, h) =
      let here = life_load-le (lives i).node e until (lives i).ticks (lives i).late p s in
      let rest = page_load-le lives until (suc i) es pos h in omega arith

  -- Whatever the node answers to each attempt: all rounds of calls that the status page starts, which
  -- goes at most `until` milliseconds after it came, make at most 65 attempts for each second that has
  -- begun until then and 20 for each two and a half seconds, if the ticks of each interval are a period
  -- apart. The attempts of a round count also where it goes on after the page has gone; a tick after
  -- that starts no round.
  pub status_page-load :
      (lives : ℕ → Life A E) (until : ℕ)
      → AreSpaced lives until 0 status_page
      → page_load lives 0 status_page ≤ 65 * (1 + until / 1000) + 20 * (1 + until / 2500)
  unfolding page_bound
  status_page-load lives until h =
      let bound =
        page_load-le lives until 0 status_page
          (
            omega arith,
            (
              omega arith,
              (
                omega arith,
                (omega arith, (omega arith, (omega arith, (omega arith, (omega arith, tt))))),
              ),
            ),
          )
          h in
      omega arith
