-- ===== src/ProviderPage/Visits.antt =====
-- The page of routes/Provider.js over changes of its address.
use mathlib.Core.Path.{subst}
use mathlib.Core.Option.{none-ne-some, some-injective}
use ribs.Base.{
  ℕ, zero, suc, ◌+◌, ◌≡◌, refl, ap, ◌∙◌, inl, inr, ◌⊎◌, Option, none, some, List, [], ◌∷◌, All,
  All-append, arith, Text, get_elem?, length, length-append, ltb, Bool-cases,
}
use ribs.Number.Defs.{Number}
use ribs.ProviderPage.Page.{ProviderInfo, ProviderState, provider_number}
use ribs.ProviderPage.Mounted.{
  Mounted, begin_fetch, mount, drop_call, set_height, Event, tick, answered, failed, head, visit,
  end_fetch, step, run,
}

-- The address after some events, and how often the interval fired.
abbrev pub last_visit : Text → List Event → Text
last_visit provider_id [] = provider_id
last_visit provider_id (tick ∷ es) = last_visit provider_id es
last_visit provider_id (answered i time ∷ es) = last_visit provider_id es
last_visit provider_id (failed i ∷ es) = last_visit provider_id es
last_visit provider_id (head height ∷ es) = last_visit provider_id es
last_visit provider_id (visit next ∷ es) = last_visit next es

abbrev pub ticks : List Event → ℕ
ticks [] = 0
ticks (tick ∷ es) = suc (ticks es)
ticks (answered i time ∷ es) = ticks es
ticks (failed i ∷ es) = ticks es
ticks (head height ∷ es) = ticks es
ticks (visit next ∷ es) = ticks es

-- All calls are for the provider of the first address, and so is what is shown.
pub record IsFor (node : ℕ → Number → ProviderInfo) (a : Text) (p : Mounted) : Type 0 where
  pub first : p.first_id ≡ a
  pub waiting : All (λ n. n ≡ provider_number a) p.calls
  pub asking : All (λ n. n ≡ provider_number a) p.asked
  pub shown :
      (p.state.provider ≡ none)
      ⊎ ((time : ℕ) × (p.state.provider ≡ some (node time (provider_number a))))

drop_call-All : (P : Number → Type 0) (ns : List Number) (i : ℕ) → All P ns → All P (drop_call ns i)
drop_call-All P [] i a = tt
drop_call-All P (n ∷ ns) zero (h, a) = a
drop_call-All P (n ∷ ns) (suc i) (h, a) = (h, drop_call-All P ns i a)

get_elem?-All :
    (P : Number → Type 0) (ns : List Number) (i : ℕ) (n : Number)
    → get_elem? ns i ≡ some n
    → All P ns
    → P n
get_elem?-All P [] i n e a = absurd (none-ne-some _ e)
get_elem?-All P (m ∷ ns) zero n e (h, a) = subst P (some-injective _ _ e) h
get_elem?-All P (m ∷ ns) (suc i) n e (h, a) = get_elem?-All P ns i n e a

module _ (node : ℕ → Number → ProviderInfo) (a : Text) where
  begin_fetch-IsFor : (p : Mounted) → IsFor node a p → IsFor node a (begin_fetch p)
  unfolding begin_fetch
  begin_fetch-IsFor p v =
      let same : provider_number p.first_id ≡ provider_number a = ap provider_number v.first in
      record {
        first = v.first;
        waiting = All-append (λ n. n ≡ provider_number a) p.calls _ v.waiting (same, tt);
        asking = All-append (λ n. n ≡ provider_number a) p.asked _ v.asking (same, tt);
        shown = v.shown;
      }

  end_fetch-IsFor :
      (o : Option Number) (i time : ℕ) (p : Mounted)
      → get_elem? p.calls i ≡ o
      → IsFor node a p
      → IsFor node a (end_fetch node o i time p)
  unfolding end_fetch
  end_fetch-IsFor none i time p e v = v
  end_fetch-IsFor (some n) i time p e v = record {
    first = v.first;
    waiting = drop_call-All (λ m. m ≡ provider_number a) p.calls i v.waiting;
    asking = v.asking;
    shown =
        let same = get_elem?-All (λ m. m ≡ provider_number a) p.calls i n e v.waiting in
        inr (time, ap (λ m. some (node time m)) same);
  }

  set_height-provider :
      (height : Option Number) (s : ProviderState) → (set_height height s).provider ≡ s.provider
  set_height-provider none s = refl
  set_height-provider (some height) s = refl

  step-IsFor : (p : Mounted) (e : Event) → IsFor node a p → IsFor node a (step node p e)
  unfolding step
  step-IsFor p tick v = begin_fetch-IsFor p v
  step-IsFor p (answered i time) v = end_fetch-IsFor (get_elem? p.calls i) i time p refl v
  step-IsFor p (failed i) v = record {
    first = v.first;
    waiting = drop_call-All (λ m. m ≡ provider_number a) p.calls i v.waiting;
    asking = v.asking;
    shown = v.shown;
  }
  step-IsFor p (head height) v = elim (Bool-cases (ltb 0 p.heads)) [
    | inl e ↦ rw e (record {
      first = v.first;
      waiting = v.waiting;
      asking = v.asking;
      shown = rw (set_height-provider height p.state) v.shown;
    })
    | inr e ↦ rw e v
  ]
  step-IsFor p (visit provider_id) v = record {
    first = v.first;
    waiting = v.waiting;
    asking = v.asking;
    shown = v.shown;
  }

  end_fetch-keeps :
      (o : Option Number) (i time : ℕ) (p : Mounted)
      → ((end_fetch node o i time p).provider_id ≡ p.provider_id)
        × ((end_fetch node o i time p).asked ≡ p.asked)
  unfolding end_fetch
  end_fetch-keeps none i time p = (refl, refl)
  end_fetch-keeps (some n) i time p = (refl, refl)

  step-last_visit :
      (p : Mounted) (e : Event) (es : List Event)
      → (last_visit (step node p e).provider_id es ≡ last_visit p.provider_id (e ∷ es))
        × (length (step node p e).asked + ticks es ≡ length p.asked + ticks (e ∷ es))
  unfolding step begin_fetch
  step-last_visit p tick es =
      (refl, omega (arith, length-append p.asked (provider_number p.first_id ∷ [])))
  step-last_visit p (answered i time) es =
      let (id, asked) = end_fetch-keeps (get_elem? p.calls i) i time p in
      (ap (λ t. last_visit t es) id, ap (λ (ns : List Number). length ns + ticks es) asked)
  step-last_visit p (failed i) es = (refl, refl)
  step-last_visit p (head height) es = elim (Bool-cases (ltb 0 p.heads)) [
    | inl e ↦ rw e (refl, refl)
    | inr e ↦ rw e (refl, refl)
  ]
  step-last_visit p (visit provider_id) es = (refl, refl)

  run-IsFor :
      (es : List Event) (p : Mounted)
      → IsFor node a p
      → IsFor node a (run node p es)
        × ((run node p es).provider_id ≡ last_visit p.provider_id es)
        × (length (run node p es).asked ≡ length p.asked + ticks es)
  unfolding run
  run-IsFor [] p v = (v, refl, omega arith)
  run-IsFor (e ∷ es) p v =
      let (w, id, count) = run-IsFor es (step node p e) (step-IsFor p e v) in
      let (id', count') = step-last_visit p e es in (w, id ∙ id', count ∙ count')

-- A page that is mounted at the address of a provider and stays while its address changes: each tick of
-- the interval asks for the first provider again, nothing else is ever asked for, and what is shown is
-- nothing or an answer about the first provider, while the head of the page names the last address.
pub visits-first :
    (node : ℕ → Number → ProviderInfo) (provider_id : Text) (es : List Event)
    → let p = run node (mount provider_id) es in
      All (λ n. n ≡ provider_number provider_id) p.asked
      × (length p.asked ≡ 1 + ticks es)
      × ((p.state.provider ≡ none)
          ⊎ ((time : ℕ) × (p.state.provider ≡ some (node time (provider_number provider_id)))))
      × (p.provider_id ≡ last_visit provider_id es)
unfolding mount begin_fetch
visits-first node provider_id es =
    let (v, id, count) =
      run-IsFor node provider_id es (mount provider_id)
        (record { first = refl; waiting = (refl, tt); asking = (refl, tt); shown = inl refl }) in
    (v.asking, count, v.shown, id)
