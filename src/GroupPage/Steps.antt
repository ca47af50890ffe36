-- ===== src/GroupPage/Steps.antt =====
-- What a step of the page of routes/Group.js does to the calls that wait.
use ribs.Base.{ℕ, zero, suc, ◌+◌, ◌≡◌, sym, true, false, some, List, [], ◌∷◌, ◌++◌, All}
use mathlib.Core.Option.{some-injective, some-ne-none}
use mathlib.Core.Path.{subst}
use ribs.Groups.Polling.{throttled}
use ribs.GroupPage.Page.{
  Fetch, Page, begin_fetch, fetch_at, without, Event, tick, replies, error, head, visit,
}

-- The address stays the same.
abbrev pub Stays : Event → Type 0
Stays (tick now) = Unit {0}
Stays (replies i reply deals now) = Unit
Stays (error i) = Unit
Stays (head height) = Unit
Stays (visit key now) = ⊥

module _ (P : Fetch → Type 0) where
  pub All-without : (fs : List Fetch) (i : ℕ) → All P fs → All P (without fs i)
  All-without [] i a = tt
  All-without (f ∷ fs) zero (h, a) = a
  All-without (f ∷ fs) (suc i) (h, a) = (h, All-without fs i a)

  pub fetch_at-All : (fs : List Fetch) (i : ℕ) {f : Fetch} → All P fs → fetch_at fs i ≡ some f → P f
  fetch_at-All [] i a e = absurd (some-ne-none _ (sym e))
  fetch_at-All (g ∷ fs) zero (h, a) e = subst P (some-injective _ _ e) h
  fetch_at-All (g ∷ fs) (suc i) (h, a) e = fetch_at-All fs i a e

pub begin_fetch-busy : (now : ℕ) (p : Page) → p.refreshing ≡ true → begin_fetch now p ≡ p
unfolding begin_fetch
begin_fetch-busy now p e = rw e

pub begin_fetch-throttled :
    (now : ℕ) (p : Page)
    → p.refreshing ≡ false
    → throttled p.seen now ≡ true
    → begin_fetch now p ≡ record p { refreshing = true }
unfolding begin_fetch
begin_fetch-throttled now p e t = rw (e, t)

pub begin_fetch-asks :
    (now : ℕ) (p : Page)
    → p.refreshing ≡ false
    → throttled p.seen now ≡ false
    → begin_fetch now p ≡ record p {
      refreshing = true;
      fetches = p.fetches ++ record { render = p.render; key = p.key } ∷ [];
      requests = p.requests + 1;
    }
unfolding begin_fetch
begin_fetch-asks now p e t = rw (e, t)
