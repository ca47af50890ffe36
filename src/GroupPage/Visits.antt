-- ===== src/GroupPage/Visits.antt =====
-- What the polling of the page of a group does after the address has changed.
use ribs.Base.{
  ℕ, ◌+◌, ◌<◌, ◌≡◌, ◌≢◌, refl, sym, true, Option, none, some, List, [], ◌∷◌, All, arith, inl, inr,
  Bool-cases, ==_ne, ltb,
}
use mathlib.Core.Option.{some-injective}
use mathlib.Core.Path.{subst}
use ribs.Number.Defs.{Number}
use ribs.Groups.Deals.{DealInfo}
use ribs.Groups.Polling.{Meta, throttled}
use ribs.GroupPage.Page.{
  Fetch, Page, begin_fetch, end_fetch, fail_fetch, set_head, end_head, visit_key, turned, mount,
  fetch_at, Event, tick, replies, error, head, visit, step, run,
}
use ribs.GroupPage.Steps.{Stays, All-without, fetch_at-All, begin_fetch-busy, begin_fetch-throttled}
use ribs.GroupPage.Elsewhere.{Avoids, IsBefore, IsElsewhere, run-IsElsewhere, mount-IsElsewhere}

-- A page that will never ask the node again: the flag is set, and the calls that wait belong to renders before.
record IsStuck (key : ℕ) (p : Page) : Type 0 where
  flag : p.refreshing ≡ true
  none_asked : p.requests ≡ 0
  old : All (λ f. (f.render < p.render) × (f.key ≢ key)) p.fetches
  other : p.group.group_key ≢ some key

-- A call of a render before this one, for another key.
abbrev IsOld : ℕ → ℕ → Fetch → Type 0
IsOld key render f = (f.render < render) × (f.key ≢ key)

end_fetch-IsStuck :
    (key : ℕ) (p : Page) (i : ℕ) (o : Option Fetch) (reply : Meta) (deals : List DealInfo) (now : ℕ)
    → fetch_at p.fetches i ≡ o
    → IsStuck key p
    → IsStuck key (end_fetch i o reply deals now p)
unfolding end_fetch
end_fetch-IsStuck key p i none reply deals now e s = s
end_fetch-IsStuck key p i (some f) reply deals now e s =
    let (lt, ne) : IsOld key p.render f = fetch_at-All (IsOld key p.render) p.fetches i s.old e in
    record {
      flag = rw (==_ne f.render p.render (omega arith)) s.flag;
      none_asked = s.none_asked;
      old = All-without (IsOld key p.render) p.fetches i s.old;
      other = λ same. ne (some-injective _ _ same);
    }

set_head-IsStuck :
    (key : ℕ) (p : Page) (height : Option Number) → IsStuck key p → IsStuck key (set_head height p)
set_head-IsStuck key p none s = record {
  flag = s.flag;
  none_asked = s.none_asked;
  old = s.old;
  other = s.other;
}
set_head-IsStuck key p (some h) s = record {
  flag = s.flag;
  none_asked = s.none_asked;
  old = s.old;
  other = s.other;
}

end_head-IsStuck :
    (key : ℕ) (p : Page) (height : Option Number) → IsStuck key p → IsStuck key (end_head height p)
unfolding end_head
end_head-IsStuck key p height s = elim (Bool-cases (ltb 0 p.heads)) [
  | inl e ↦ rw e (set_head-IsStuck key p height s)
  | inr e ↦ rw e s
]

step-IsStuck : (key : ℕ) (p : Page) (e : Event) → Stays e → IsStuck key p → IsStuck key (step p e)
unfolding step begin_fetch fail_fetch
step-IsStuck key p (tick now) h s = subst (IsStuck key) (sym (begin_fetch-busy now p s.flag)) s
step-IsStuck key p (replies i reply deals now) h s =
    end_fetch-IsStuck key p i (fetch_at p.fetches i) reply deals now refl s
step-IsStuck key p (error i) h s = record {
  flag = s.flag;
  none_asked = s.none_asked;
  old = All-without (IsOld key p.render) p.fetches i s.old;
  other = s.other;
}
step-IsStuck key p (head height) h s = end_head-IsStuck key p height s
step-IsStuck key p (visit k now) h s = absurd h

run-IsStuck :
    (key : ℕ) (es : List Event) (p : Page) → All Stays es → IsStuck key p → IsStuck key (run p es)
unfolding run
run-IsStuck key [] p a s = s
run-IsStuck key (e ∷ es) p (h, a) s = run-IsStuck key es (step p e) a (step-IsStuck key p e h s)

IsBefore-IsOld :
    (key render : ℕ) (fs : List Fetch)
    → All (IsBefore key render) fs
    → All (IsOld key (render + 1)) fs
IsBefore-IsOld key render [] a = tt
IsBefore-IsOld key render (f ∷ fs) ((le, ne), a) =
    ((omega arith, ne), IsBefore-IsOld key render fs a)

visit_key-IsStuck :
    (key now : ℕ) (p : Page)
    → IsElsewhere key p
    → throttled p.group now ≡ true
    → IsStuck key (visit_key key now p)
unfolding visit_key
visit_key-IsStuck key now p v t =
    rw (==_ne key p.key (λ e. v.here (sym e)), begin_fetch-throttled now (turned key p) refl t)
      (record {
        flag = refl;
        none_asked = refl;
        old = IsBefore-IsOld key p.render p.fetches v.before;
        other = v.shown;
      })

-- From a page that shows a group, the address goes to another group for which nothing was asked so far,
-- at a time within the limit of the group that was shown: while the address stays there, the page never
-- asks the node for that group, and never shows it.
pub visit-starves :
    (k key start now : ℕ) (before later : List Event)
    → k ≢ key
    → All (Avoids key) before
    → All Stays later
    → let shown = run (mount k start) before in
      throttled shown.group now ≡ true
      → let p = run (step shown (visit key now)) later in
        (p.requests ≡ 0) × (p.group.group_key ≢ some key)
unfolding step
visit-starves k key start now before later ne avoids stays t =
    let v = run-IsElsewhere key before (mount k start) avoids (mount-IsElsewhere key k start ne) in
    let s = visit_key-IsStuck key now (run (mount k start) before) v t in
    let stuck = run-IsStuck key later (visit_key key now (run (mount k start) before)) stays s in
    (stuck.none_asked, stuck.other)
