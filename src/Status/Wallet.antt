-- ===== src/Status/Wallet.antt =====
-- `WalletInfoTile` of routes/Status.js: the menu that adds to and withdraws from the market balance.
-- `to_number` is JavaScript's `Number` on strings, which `*` applies to what was typed.
use ribs.Base.{Bool, true, false, not, List, [], ◌∷◌, ◌++◌, Text, codes, take}
use ribs.Number.Defs.{Number, of_ℕ, mul}
use ribs.Number.Print.{to_text}
use ribs.Groups.Deals.{slice_last}

-- The state `operationType`: `''` before the first click.
pub data Operation : Type 0 where
  unset : Operation
  add : Operation
  withdraw : Operation

-- The state `amount`: the number that it starts with, or a text from the field.
pub data Amount : Type 0 where
  number : Number → Amount
  typed : Text → Amount

pub record Tile : Type 0 where
  pub dropdown_open : Bool
  pub amount : Amount
  pub operation_type : Operation

abbrev pub one_fil : Number
one_fil = of_ℕ 1000000000000000000

abbrev pub start : Tile
start = record { dropdown_open = false; amount = number one_fil; operation_type = unset }

unfoldable pub truncate_address : Text → Text
truncate_address address = take 10 address ++ (codes "..." ++ slice_last 10 address)

unfoldable pub handle_add_withdraw_click : Operation → Tile → Tile
handle_add_withdraw_click type t = record t {
  operation_type = type;
  dropdown_open = not t.dropdown_open;
}

unfoldable pub handle_amount_change : Text → Tile → Tile
handle_amount_change value t = record t { amount = typed value }

-- The call that `handleSubmit` makes: its method and its one parameter.
pub data Call : Type 0 where
  wallet_market_add : Text → Call
  wallet_market_withdraw : Text → Call

module _ (to_number : Text → Number) where
  -- `(amount*oneFil).toString()`
  unfoldable pub amount_text : Amount → Text
  amount_text (number n) = to_text (mul n one_fil)
  amount_text (typed value) = to_text (mul (to_number value) one_fil)

  unfoldable pub handle_submit : Tile → Call
  handle_submit t = elim t.operation_type [
    | add ↦ wallet_market_add (amount_text t.amount)
    | _ ↦ wallet_market_withdraw (amount_text t.amount)
  ]

-- `handleSubmit` after its call: an error leaves the menu as it is.
unfoldable pub end_submit : Bool → Tile → Tile
end_submit true t = record t { dropdown_open = false }
end_submit false t = t

-- The buttons give `'add'` or `'withdraw'`, a reply or an error comes at any time.
pub data Event : Type 0 where
  click_add : Event
  click_withdraw : Event
  change : Text → Event
  settled : Bool → Event

unfoldable pub step : Tile → Event → Tile
step t click_add = handle_add_withdraw_click add t
step t click_withdraw = handle_add_withdraw_click withdraw t
step t (change value) = handle_amount_change value t
step t (settled ok) = end_submit ok t

unfoldable pub run : Tile → List Event → Tile
run t [] = t
run t (e ∷ es) = run (step t e) es
