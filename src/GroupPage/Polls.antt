-- ===== src/GroupPage/Polls.antt =====
-- The polling of the page of a group while the address stays (routes/Group.js).
use ribs.Base.{
  ℕ, ◌+◌, ◌≡◌, ◌≢◌, refl, ◌∙◌, false, Option, none, some, List, [], ◌∷◌, map, All, arith, inl, inr,
}
use ribs.Number.Defs.{Number}
use ribs.Groups.Deals.{DealInfo}
use ribs.Groups.Polling.{Meta, no_group}
use ribs.GroupPage.Page.{
  Page, begin_fetch, end_fetch, end_head, mount, fetch_at, Event, tick, replies, head, step, run,
}
use ribs.GroupPage.Steps.{Stays, begin_fetch-asks}
use ribs.GroupPage.First.{no_group-throttled, only, IsFirst, run-IsFirst, mount-IsFirst}

-- What answers of "ChainHead" leave as it is.
record SamePolling (p q : Page) : Type 0 where
  same_flag : q.refreshing ≡ p.refreshing
  same_seen : q.seen ≡ p.seen
  same_requests : q.requests ≡ p.requests
  same_group : q.group ≡ p.group

head-SamePolling : (p : Page) (height : Option Number) → SamePolling p (step p (head height))
unfolding step end_head
head-SamePolling p none = ground arith
head-SamePolling p (some h) = ground arith

heads-SamePolling : (p : Page) (hs : List (Option Number)) → SamePolling p (run p (map head hs))
unfolding run
heads-SamePolling p [] = record {
  same_flag = refl;
  same_seen = refl;
  same_requests = refl;
  same_group = refl;
}
heads-SamePolling p (h ∷ hs) =
    let s = head-SamePolling p h in
    let t = heads-SamePolling (step p (head h)) hs in
    record {
      same_flag = t.same_flag ∙ s.same_flag;
      same_seen = t.same_seen ∙ s.same_seen;
      same_requests = t.same_requests ∙ s.same_requests;
      same_group = t.same_group ∙ s.same_group;
    }

answered-polls :
    (key : ℕ) (p : Page) (reply : Meta) (deals : List DealInfo) (now next : ℕ)
    (hs : List (Option Number))
    → IsFirst key p
    → let shown = run (end_fetch 0 (some (only key)) reply deals now p) (map head hs) in
      (shown.group ≡ record {
        info = some reply;
        group_key = some key;
        deals = deals;
        last_refresh = some now;
      })
      × ((begin_fetch next shown).requests ≡ p.requests + 1)
unfolding end_fetch
answered-polls key p reply deals now next hs v =
    let q = end_fetch 0 (some (only key)) reply deals now p in
    let shown = run q (map head hs) in
    let same = heads-SamePolling q hs in
    let clear : q.refreshing ≡ false = rw v.alone refl in
    let seen : shown.seen ≡ no_group = same.same_seen ∙ v.empty in
    let asks =
      begin_fetch-asks next shown (same.same_flag ∙ clear) (rw seen (no_group-throttled next)) in
    (same.same_group, rw (asks, same.same_requests) refl)

-- As long as the address has not changed: when the replies to a call that waits arrive, the page
-- shows them under its key, and it keeps polling whatever comes of "ChainHead" then, errors too:
-- the next tick asks the node again, at any time.
pub replies-polls_on :
    (key start : ℕ) (es : List Event) (reply : Meta) (deals : List DealInfo) (now next : ℕ)
    (hs : List (Option Number))
    → All Stays es
    → (run (mount key start) es).fetches ≢ []
    → let p = run (mount key start) es in
      let shown = run (step p (replies 0 reply deals now)) (map head hs) in
      (shown.group ≡ record {
        info = some reply;
        group_key = some key;
        deals = deals;
        last_refresh = some now;
      })
      × ((step shown (tick next)).requests ≡ p.requests + 1)
unfolding step
replies-polls_on key start es reply deals now next hs stays waiting =
    let p = run (mount key start) es in
    let v = run-IsFirst key es (mount key start) stays (mount-IsFirst key start) in
    elim v.calls [
      | inl e ↦ absurd (waiting e)
      | inr (e, flag) ↦
          let called : fetch_at p.fetches 0 ≡ some (only key) = rw e in
          rw called (answered-polls key p reply deals now next hs v)
    ]
