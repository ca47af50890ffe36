-- ===== src/Groups/Refresh.antt =====
-- What the polling of a group does over time.
use ribs.Base.{ℕ, ◌+◌, ◌≤◌, ◌<◌, ◌≡◌, refl, true, false, some, List, [], ◌∷◌, arith, lt→ltb}
use ribs.Groups.Deals.{DealInfo}
use ribs.Groups.Polling.{
  Meta, no_group, throttled, Card, mount, begin_fetch, end_fetch, fail_fetch, Event, tick, replies,
  error, step, run,
}

-- What holds of a card since it was mounted.
pub record Inv (c : Card) : Type 0 where
  pub seen_empty : c.seen ≡ no_group
  pub one_call : c.pending ≤ 1
  pub busy : 0 < c.pending → c.refreshing ≡ true

no_group-throttled : (now : ℕ) → throttled no_group now ≡ false
unfolding throttled
no_group-throttled now = refl

step-Inv : (c : Card) (e : Event) → Inv c → Inv (step c e)
unfolding step begin_fetch end_fetch fail_fetch
step-Inv c (tick now) v = ground arith
step-Inv c (replies reply deals now) v = ground arith
step-Inv c error v = ground arith

run-Inv : (es : List Event) (c : Card) → Inv c → Inv (run c es)
unfolding run
run-Inv [] c v = v
run-Inv (e ∷ es) c v = run-Inv es (step c e) (step-Inv c e v)

mount-Inv : (key : ℕ) → Inv (mount key)
mount-Inv key = ground arith

-- A card whose flag is set and that waits for nothing.
pub record IsStuck (c : Card) : Type 0 where
  pub flag : c.refreshing ≡ true
  pub idle : c.pending ≡ 0

step-IsStuck : (c : Card) (e : Event) → IsStuck c → step c e ≡ c
unfolding step begin_fetch
step-IsStuck c (tick now) h = ground arith
step-IsStuck c (replies reply deals now) h = ground arith
step-IsStuck c error h = ground arith

run-IsStuck : (es : List Event) (c : Card) → IsStuck c → run c es ≡ c
unfolding run
run-IsStuck [] c h = refl
run-IsStuck (e ∷ es) c h = rw (step-IsStuck c e h) (run-IsStuck es c h)

-- At any time after a card was mounted, a tick that finds the flag clear asks the node, whatever the
-- time is: none of the three limits on the rate ever applies. No fetch was under way before, and one is then.
pub tick-fetches :
    (key : ℕ) (es : List Event) (now : ℕ)
    → (run (mount key) es).refreshing ≡ false
    → let c = run (mount key) es in
      (c.pending ≡ 0)
      × ((step c (tick now)).pending ≡ 1)
      × ((step c (tick now)).requests ≡ c.requests + 1)
unfolding step begin_fetch
tick-fetches key es now e =
    let c = run (mount key) es in
    let v = run-Inv es (mount key) (mount-Inv key) in
    let open_throttle : throttled c.seen now ≡ false = rw v.seen_empty (no_group-throttled now) in
    (
      ground (arith, v.busy, v.one_call),
      ground (arith, v.busy, v.one_call),
      ground (arith, v.busy, v.one_call),
    )

-- Whatever happens to a card, it never has two fetches under way, and a tick that comes while one is
-- under way changes nothing.
tick-one_call :
    (key : ℕ) (es : List Event) (now : ℕ)
    → 0 < (run (mount key) es).pending
    → let c = run (mount key) es in (c.pending ≡ 1) × (step c (tick now) ≡ c)
unfolding step begin_fetch
tick-one_call key es now h =
    let c = run (mount key) es in
    let v = run-Inv es (mount key) (mount-Inv key) in
    let one : c.pending ≤ 1 = v.one_call in (omega arith, rw (v.busy h))

-- After an error of a fetch the card asks the node nothing more and shows the same data for ever.
pub error-stops :
    (key : ℕ) (es later : List Event)
    → 0 < (run (mount key) es).pending
    → let c = run (mount key) es in
      let stopped = run (step c error) later in
      (stopped.requests ≡ c.requests) × (stopped.group ≡ c.group) × (stopped.pending ≡ 0)
unfolding step fail_fetch
error-stops key es later h =
    let c = run (mount key) es in
    let v = run-Inv es (mount key) (mount-Inv key) in
    let flag : c.refreshing ≡ true = v.busy h in
    let one : c.pending ≤ 1 = v.one_call in
    let stuck : IsStuck (fail_fetch c) = record { flag = flag; idle = omega arith } in
    rw (lt→ltb 0 c.pending h, run-IsStuck later (fail_fetch c) stuck) (refl, refl, omega arith)

-- For a fetch function that sees any group whatever: the first tick inside a limit is the last one
-- that does anything, because it leaves the flag set.
throttle-stops :
    (c : Card) (now : ℕ) (later : List Event)
    → c.refreshing ≡ false
    → c.pending ≡ 0
    → throttled c.seen now ≡ true
    → run (step c (tick now)) later ≡ record c { refreshing = true }
unfolding step begin_fetch
throttle-stops c now later f p t =
    let stuck : IsStuck (record c { refreshing = true }) = record { flag = refl; idle = p } in
    rw (f, t, run-IsStuck later (record c { refreshing = true }) stuck)

-- When the replies are there, the card shows them, under its key and with their time, and the next
-- tick fetches again.
replies-shown :
    (key : ℕ) (es : List Event) (reply : Meta) (deals : List DealInfo) (now next : ℕ)
    → 0 < (run (mount key) es).pending
    → let c = run (mount key) es in
      let shown = step c (replies reply deals now) in
      (shown.group ≡ record {
        info = some reply;
        group_key = some c.key;
        deals = deals;
        last_refresh = some now;
      })
      × (shown.refreshing ≡ false)
      × ((step shown (tick next)).requests ≡ c.requests + 1)
unfolding step end_fetch begin_fetch
replies-shown key es reply deals now next h =
    let c = run (mount key) es in
    let v = run-Inv es (mount key) (mount-Inv key) in
    let open_throttle : throttled c.seen next ≡ false = rw v.seen_empty (no_group-throttled next) in
    rw (lt→ltb 0 c.pending h) (refl, refl, rw open_throttle)
