-- ===== src/Status/WalletClicks.antt =====
-- Which call the menu of `WalletInfoTile` (routes/Status.js) makes.
use ribs.Base.{◌≡◌, refl, sym, ◌∙◌, true, false, ◌⊎◌, inl, inr, List, [], ◌∷◌, Text, All}
use ribs.Number.Defs.{Number}
use ribs.Status.Wallet.{
  Operation, add, withdraw, Tile, start, handle_add_withdraw_click, handle_amount_change,
  wallet_market_add, wallet_market_withdraw, amount_text, handle_submit, end_submit, Event,
  click_add, click_withdraw, change, settled, step, run,
}

-- The button that an event clicks.
abbrev pub IsClick : Operation → Event → Type 0
IsClick op click_add = op ≡ add
IsClick op click_withdraw = op ≡ withdraw
IsClick op (change value) = ⊥
IsClick op (settled ok) = ⊥

abbrev pub IsOther : Event → Type 0
IsOther click_add = ⊥
IsOther click_withdraw = ⊥
IsOther (change value) = Unit {0}
IsOther (settled ok) = Unit {0}

-- The last click of a run is on the button of `op`.
abbrev pub IsLastClick : Operation → List Event → Type 0
IsLastClick op [] = ⊥
IsLastClick op (e ∷ es) = (IsClick op e × All IsOther es) ⊎ IsLastClick op es

others-keep :
    (t : Tile) (es : List Event) → All IsOther es → (run t es).operation_type ≡ t.operation_type
unfolding run step handle_amount_change end_submit
others-keep t [] o = refl
others-keep t (click_add ∷ es) o = elim o.0 [ ]
others-keep t (click_withdraw ∷ es) o = elim o.0 [ ]
others-keep t (change value ∷ es) (o, os) = others-keep _ es os
others-keep t (settled true ∷ es) (o, os) = others-keep _ es os
others-keep t (settled false ∷ es) (o, os) = others-keep t es os

step-IsClick :
    (t : Tile) (e : Event) (op : Operation) → IsClick op e → (step t e).operation_type ≡ op
unfolding step handle_add_withdraw_click
step-IsClick t click_add op h = sym h
step-IsClick t click_withdraw op h = sym h
step-IsClick t (change value) op h = elim h [ ]
step-IsClick t (settled ok) op h = elim h [ ]

run-IsLastClick :
    (t : Tile) (es : List Event) (op : Operation)
    → IsLastClick op es
    → (run t es).operation_type ≡ op
unfolding run
run-IsLastClick t [] op l = elim l [ ]
run-IsLastClick t (e ∷ es) op (inl (c, o)) = others-keep (step t e) es o ∙ step-IsClick t e op c
run-IsLastClick t (e ∷ es) op (inr l) = run-IsLastClick (step t e) es op l

-- A run clicks one of the buttons last, or none at all.
last-cases : (es : List Event) → All IsOther es ⊎ (IsLastClick add es ⊎ IsLastClick withdraw es)
last-cases [] = inl tt
last-cases (e ∷ es) = elim (last-cases es) [
  | inl os ↦ first e es os
  | inr (inl l) ↦ inr (inl (inr l))
  | inr (inr l) ↦ inr (inr (inr l))
]
  where
    first :
        (e : Event) (es : List Event)
        → All IsOther es
        → All IsOther (e ∷ es) ⊎ (IsLastClick add (e ∷ es) ⊎ IsLastClick withdraw (e ∷ es))
    first click_add es os = inr (inl (inl (refl, os)))
    first click_withdraw es os = inr (inr (inl (refl, os)))
    first (change value) es os = inl (tt, os)
    first (settled ok) es os = inl (tt, os)

others-closed :
    (t : Tile) (es : List Event)
    → All IsOther es
    → t.dropdown_open ≡ false
    → (run t es).dropdown_open ≡ false
unfolding run step handle_amount_change end_submit
others-closed t [] o c = c
others-closed t (click_add ∷ es) o c = elim o.0 [ ]
others-closed t (click_withdraw ∷ es) o c = elim o.0 [ ]
others-closed t (change value ∷ es) (o, os) c = others-closed _ es os c
others-closed t (settled true ∷ es) (o, os) c = others-closed _ es os refl
others-closed t (settled false ∷ es) (o, os) c = others-closed t es os c

module _ (to_number : Text → Number) where
  -- After any clicks, edits and settled calls: if the menu is open, then some button was clicked, and
  -- submitting calls the operation of the button that was clicked last, "WalletMarketAdd" for "Add"
  -- and "WalletMarketWithdraw" for "Withdraw", with the amount in the field.
  pub run-submits :
      (es : List Event)
      → (run start es).dropdown_open ≡ true
      → let t = run start es in
        (IsLastClick add es
          × (handle_submit to_number t ≡ wallet_market_add (amount_text to_number t.amount)))
        ⊎ (IsLastClick withdraw es
            × (handle_submit to_number t ≡ wallet_market_withdraw (amount_text to_number t.amount)))
  unfolding handle_submit
  run-submits es h = elim (last-cases es) [
    | inl os ↦ let closed = others-closed start es os refl in absurd cc
    | inr (inl l) ↦ inl (l, rw (run-IsLastClick start es add l, handle_submit))
    | inr (inr l) ↦ inr (l, rw (run-IsLastClick start es withdraw l, handle_submit))
  ]
