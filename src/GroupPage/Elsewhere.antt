-- ===== src/GroupPage/Elsewhere.antt =====
-- The page of routes/Group.js while its address avoids a group.
use ribs.Base.{
  All-append, ℕ, ◌+◌, ◌≤◌, ◌≡◌, ◌≢◌, refl, Option, none, some, List, [], ◌∷◌, All, arith, inl, inr,
  Bool-cases, ◌==◌, ltb,
}
use mathlib.Core.Option.{some-injective, none-ne-some}
use ribs.Number.Defs.{Number}
use ribs.Groups.Deals.{DealInfo}
use ribs.Groups.Polling.{Meta, throttled}
use ribs.GroupPage.Page.{
  Fetch, Page, begin_fetch, end_fetch, fail_fetch, set_head, end_head, visit_key, turned, first,
  mount, fetch_at, Event, tick, replies, error, head, visit, step, run,
}
use ribs.GroupPage.Steps.{
  All-without, fetch_at-All, begin_fetch-busy, begin_fetch-throttled, begin_fetch-asks,
}

-- The address never becomes `key`.
abbrev pub Avoids : ℕ → Event → Type 0
Avoids key (tick now) = Unit {0}
Avoids key (replies i reply deals now) = Unit
Avoids key (error i) = Unit
Avoids key (head height) = Unit
Avoids key (visit k now) = k ≢ key

-- No call is for `key`, and none is of a later render.
abbrev pub IsBefore : ℕ → ℕ → Fetch → Type 0
IsBefore key render f = (f.render ≤ render) × (f.key ≢ key)

pub record IsElsewhere (key : ℕ) (p : Page) : Type 0 where
  pub here : p.key ≢ key
  pub before : All (IsBefore key p.render) p.fetches
  pub shown : p.group.group_key ≢ some key

begin_fetch-IsElsewhere :
    (key now : ℕ) (p : Page) → IsElsewhere key p → IsElsewhere key (begin_fetch now p)
begin_fetch-IsElsewhere key now p v = elim (Bool-cases p.refreshing) [
  | inl e ↦ rw (begin_fetch-busy now p e) v
  | inr e ↦ elim (Bool-cases (throttled p.seen now)) [
    | inl t ↦
        rw (begin_fetch-throttled now p e t)
          (record { here = v.here; before = v.before; shown = v.shown })
    | inr t ↦ rw (begin_fetch-asks now p e t) (record {
      here = v.here;
      before = All-append (IsBefore key p.render) p.fetches _ v.before ((omega arith, v.here), tt);
      shown = v.shown;
    })
  ]
]

end_fetch-IsElsewhere :
    (key : ℕ) (p : Page) (i : ℕ) (o : Option Fetch) (reply : Meta) (deals : List DealInfo) (now : ℕ)
    → fetch_at p.fetches i ≡ o
    → IsElsewhere key p
    → IsElsewhere key (end_fetch i o reply deals now p)
unfolding end_fetch
end_fetch-IsElsewhere key p i none reply deals now e v = v
end_fetch-IsElsewhere key p i (some f) reply deals now e v =
    let (le, ne) : IsBefore key p.render f =
      fetch_at-All (IsBefore key p.render) p.fetches i v.before e in
    record {
      here = v.here;
      before = All-without (IsBefore key p.render) p.fetches i v.before;
      shown = λ same. ne (some-injective _ _ same);
    }

set_head-IsElsewhere :
    (key : ℕ) (p : Page) (height : Option Number)
    → IsElsewhere key p
    → IsElsewhere key (set_head height p)
set_head-IsElsewhere key p none v = record { here = v.here; before = v.before; shown = v.shown }
set_head-IsElsewhere key p (some h) v = record { here = v.here; before = v.before; shown = v.shown }

end_head-IsElsewhere :
    (key : ℕ) (p : Page) (height : Option Number)
    → IsElsewhere key p
    → IsElsewhere key (end_head height p)
unfolding end_head
end_head-IsElsewhere key p height v = elim (Bool-cases (ltb 0 p.heads)) [
  | inl e ↦ rw e (set_head-IsElsewhere key p height v)
  | inr e ↦ rw e v
]

IsBefore-next :
    (key render : ℕ) (fs : List Fetch)
    → All (IsBefore key render) fs
    → All (IsBefore key (render + 1)) fs
IsBefore-next key render [] a = tt
IsBefore-next key render (f ∷ fs) ((le, ne), a) = ((omega arith, ne), IsBefore-next key render fs a)

visit_key-IsElsewhere :
    (key k now : ℕ) (p : Page) → k ≢ key → IsElsewhere key p → IsElsewhere key (visit_key k now p)
unfolding visit_key
visit_key-IsElsewhere key k now p ne v = elim (Bool-cases (k == p.key)) [
  | inl e ↦ rw e v
  | inr e ↦ rw e (
      begin_fetch-IsElsewhere key now (turned k p) (record {
        here = ne;
        before = IsBefore-next key p.render p.fetches v.before;
        shown = v.shown;
      }))
]

step-IsElsewhere :
    (key : ℕ) (p : Page) (e : Event) → Avoids key e → IsElsewhere key p → IsElsewhere key (step p e)
unfolding step fail_fetch
step-IsElsewhere key p (tick now) h v = begin_fetch-IsElsewhere key now p v
step-IsElsewhere key p (replies i reply deals now) h v =
    end_fetch-IsElsewhere key p i (fetch_at p.fetches i) reply deals now refl v
step-IsElsewhere key p (error i) h v = record {
  here = v.here;
  before = All-without (IsBefore key p.render) p.fetches i v.before;
  shown = v.shown;
}
step-IsElsewhere key p (head height) h v = end_head-IsElsewhere key p height v
step-IsElsewhere key p (visit k now) h v = visit_key-IsElsewhere key k now p h v

pub run-IsElsewhere :
    (key : ℕ) (es : List Event) (p : Page)
    → All (Avoids key) es
    → IsElsewhere key p
    → IsElsewhere key (run p es)
unfolding run
run-IsElsewhere key [] p a v = v
run-IsElsewhere key (e ∷ es) p (h, a) v =
    run-IsElsewhere key es (step p e) a (step-IsElsewhere key p e h v)

pub mount-IsElsewhere : (key k now : ℕ) → k ≢ key → IsElsewhere key (mount k now)
unfolding mount
mount-IsElsewhere key k now ne =
    begin_fetch-IsElsewhere key now (first k)
      (record { here = ne; before = tt; shown = λ e. none-ne-some _ e })
