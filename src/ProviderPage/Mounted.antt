-- ===== src/ProviderPage/Mounted.antt =====
-- `Provider` of routes/Provider.js while it stays mounted and its address changes, as when the history of
-- the browser leads from one provider to another. Its effect has no dependencies, so the interval calls
-- the `fetchProvider` of the first render for ever. Calls may be answered in any order.
use ribs.Base.{
  ℕ, zero, suc, ◌+◌, ◌-◌, Option, none, some, List, [], ◌∷◌, ◌++◌, Text, get_elem?, ltb,
  if◌then◌else◌,
}
use ribs.Number.Defs.{Number}
use ribs.ProviderPage.Page.{ProviderInfo, ProviderState, provider_state, provider_number}

-- `first_id` is the address of the first render; `calls` has the numbers of the calls of "ProviderInfo"
-- that wait, `heads` counts those of "ChainHead", and `asked` has the numbers that were asked for.
pub record Mounted : Type 0 where
  pub provider_id : Text
  pub first_id : Text
  pub calls : List Number
  pub heads : ℕ
  pub asked : List Number
  pub state : ProviderState

-- `fetchProvider` of the first render, up to its first `await`.
unfoldable pub begin_fetch : Mounted → Mounted
begin_fetch p =
    let prov = provider_number p.first_id in
    record p { calls = p.calls ++ prov ∷ []; asked = p.asked ++ prov ∷ [] }

unfoldable pub mount : Text → Mounted
unfolding begin_fetch
mount provider_id = begin_fetch (record {
  provider_id = provider_id;
  first_id = provider_id;
  calls = [];
  heads = 0;
  asked = [];
  state = provider_state;
})

-- The calls but one.
abbrev pub drop_call : List Number → ℕ → List Number
drop_call [] i = []
drop_call (n ∷ ns) zero = ns
drop_call (n ∷ ns) (suc i) = n ∷ drop_call ns i

abbrev pub set_height : Option Number → ProviderState → ProviderState
set_height none s = s
set_height (some height) s = record s { head_height = height }

-- A tick of the interval, the answer to the call at an index or its error, an answer to "ChainHead",
-- none for an error, and a change of the address.
pub data Event : Type 0 where
  tick : Event
  answered : (i time : ℕ) → Event
  failed : ℕ → Event
  head : Option Number → Event
  visit : Text → Event

-- The node answers each call for a provider, at each time.
module _ (node : ℕ → Number → ProviderInfo) where
  -- `setProvider` for the call at an index, which is for `prov`, before the call of "ChainHead".
  unfoldable pub end_fetch : Option Number → ℕ → ℕ → Mounted → Mounted
  end_fetch none i time p = p
  end_fetch (some prov) i time p = record p {
    calls = drop_call p.calls i;
    heads = p.heads + 1;
    state = record p.state { provider = some (node time prov) };
  }

  unfoldable pub step : Mounted → Event → Mounted
  unfolding begin_fetch end_fetch
  step p tick = begin_fetch p
  step p (answered i time) = end_fetch (get_elem? p.calls i) i time p
  step p (failed i) = record p { calls = drop_call p.calls i }
  step p (head height) =
      if ltb 0 p.heads
      then record p { heads = p.heads - 1; state = set_height height p.state }
      else p
  step p (visit provider_id) = record p { provider_id = provider_id }

  unfoldable pub run : Mounted → List Event → Mounted
  unfolding step
  run p [] = p
  run p (e ∷ es) = run (step p e) es
