-- ===== src/GroupPage/First.antt =====
-- The page of routes/Group.js while its address never changes, and the call that it waits for.
use ribs.Base.{
  ℕ, zero, suc, ◌≡◌, refl, sym, ◌∙◌, Bool, true, false, Option, none, some, List, [], ◌∷◌, ◌++◌,
  All, inl, inr, ◌⊎◌, Bool-cases, ltb,
}
use mathlib.Core.Bool.{true≢false}
use mathlib.Core.Option.{some-ne-none}
use ribs.Number.Defs.{Number}
use ribs.Groups.Deals.{DealInfo}
use ribs.Groups.Polling.{Meta, no_group, throttled}
use ribs.GroupPage.Page.{
  Fetch, Page, begin_fetch, end_fetch, fail_fetch, set_head, end_head, first, mount, fetch_at,
  without, Event, tick, replies, error, head, visit, step, run,
}
use ribs.GroupPage.Steps.{Stays, begin_fetch-busy, begin_fetch-asks}

pub no_group-throttled : (now : ℕ) → throttled no_group now ≡ false
unfolding throttled
no_group-throttled now = refl

abbrev pub only : ℕ → Fetch
only key = record { render = 0; key = key }

abbrev pub IsCalling : ℕ → List Fetch → Bool → Type 0
IsCalling key fs refreshing = (fs ≡ []) ⊎ ((fs ≡ only key ∷ []) × (refreshing ≡ true))

-- A page whose address never changed: one call at most waits, with the flag set.
pub record IsFirst (key : ℕ) (p : Page) : Type 0 where
  pub here : p.key ≡ key
  pub alone : p.render ≡ 0
  pub empty : p.seen ≡ no_group
  pub calls : IsCalling key p.fetches p.refreshing

asked-IsCalling :
    (key : ℕ) (p : Page)
    → IsFirst key p
    → p.refreshing ≡ false
    → p.fetches ++ record { render = p.render; key = p.key } ∷ [] ≡ only key ∷ []
asked-IsCalling key p v e = elim v.calls [
  | inl none_waits ↦ rw (none_waits, v.alone, v.here)
  | inr (waits, flag) ↦ absurd (true≢false (sym flag ∙ e))
]

begin_fetch-IsFirst : (key now : ℕ) (p : Page) → IsFirst key p → IsFirst key (begin_fetch now p)
begin_fetch-IsFirst key now p v = elim (Bool-cases p.refreshing) [
  | inl e ↦ rw (begin_fetch-busy now p e) v
  | inr e ↦ rw (begin_fetch-asks now p e (rw v.empty (no_group-throttled now))) (record {
    here = v.here;
    alone = v.alone;
    empty = v.empty;
    calls = inr (asked-IsCalling key p v e, refl);
  })
]

without-only :
    (key : ℕ) (fs : List Fetch) (i : ℕ) (b : Bool)
    → IsCalling key fs b
    → (without fs i ≡ []) ⊎ ((without fs i ≡ only key ∷ []) × (b ≡ true))
without-only key fs i b (inl e) = inl (rw e)
without-only key fs zero b (inr (e, flag)) = inl (rw e)
without-only key fs (suc i) b (inr (e, flag)) = inr (rw e, flag)

fetch_at-only :
    (key : ℕ) (fs : List Fetch) (i : ℕ) (b : Bool) {f : Fetch}
    → IsCalling key fs b
    → fetch_at fs i ≡ some f
    → without fs i ≡ []
fetch_at-only key fs i b (inl e) at = rw e
fetch_at-only key fs zero b (inr (e, flag)) at = rw e
fetch_at-only key fs (suc i) b (inr (e, flag)) at = absurd (some-ne-none _ (sym at ∙ (rw e)))

end_fetch-IsFirst :
    (key : ℕ) (p : Page) (i : ℕ) (o : Option Fetch) (reply : Meta) (deals : List DealInfo) (now : ℕ)
    → fetch_at p.fetches i ≡ o
    → IsFirst key p
    → IsFirst key (end_fetch i o reply deals now p)
unfolding end_fetch
end_fetch-IsFirst key p i none reply deals now e v = v
end_fetch-IsFirst key p i (some f) reply deals now e v = record {
  here = v.here;
  alone = v.alone;
  empty = v.empty;
  calls = inl (fetch_at-only key p.fetches i p.refreshing v.calls e);
}

set_head-IsFirst :
    (key : ℕ) (p : Page) (height : Option Number) → IsFirst key p → IsFirst key (set_head height p)
set_head-IsFirst key p none v = record {
  here = v.here;
  alone = v.alone;
  empty = v.empty;
  calls = v.calls;
}
set_head-IsFirst key p (some h) v = record {
  here = v.here;
  alone = v.alone;
  empty = v.empty;
  calls = v.calls;
}

end_head-IsFirst :
    (key : ℕ) (p : Page) (height : Option Number) → IsFirst key p → IsFirst key (end_head height p)
unfolding end_head
end_head-IsFirst key p height v = elim (Bool-cases (ltb 0 p.heads)) [
  | inl e ↦ rw e (set_head-IsFirst key p height v)
  | inr e ↦ rw e v
]

step-IsFirst : (key : ℕ) (p : Page) (e : Event) → Stays e → IsFirst key p → IsFirst key (step p e)
unfolding step fail_fetch
step-IsFirst key p (tick now) h v = begin_fetch-IsFirst key now p v
step-IsFirst key p (replies i reply deals now) h v =
    end_fetch-IsFirst key p i (fetch_at p.fetches i) reply deals now refl v
step-IsFirst key p (error i) h v = record {
  here = v.here;
  alone = v.alone;
  empty = v.empty;
  calls = without-only key p.fetches i p.refreshing v.calls;
}
step-IsFirst key p (head height) h v = end_head-IsFirst key p height v
step-IsFirst key p (visit k now) h v = absurd h

pub run-IsFirst :
    (key : ℕ) (es : List Event) (p : Page) → All Stays es → IsFirst key p → IsFirst key (run p es)
unfolding run
run-IsFirst key [] p a v = v
run-IsFirst key (e ∷ es) p (h, a) v = run-IsFirst key es (step p e) a (step-IsFirst key p e h v)

pub mount-IsFirst : (key now : ℕ) → IsFirst key (mount key now)
unfolding mount
mount-IsFirst key now =
    begin_fetch-IsFirst key now (first key)
      (record { here = refl; alone = refl; empty = refl; calls = inl refl })
