-- ===== src/Groups/Polling.antt =====
-- `fetchGroup` of `Group` (routes/Groups.js), which `setInterval` calls every half
-- second. The effect runs once for a `groupKey`, so the function that the interval calls is the one of
-- that render: it sees the `group` of that render for ever, and owns that render's `refreshing`.
-- Times are milliseconds of `Date.now()`.
use ribs.Base.{
  ℕ, ◌+◌, ◌-◌, Bool, true, false, not, ◌&&◌, Option, none, some, List, [], ◌∷◌, ltb, ◌==◌, Text,
  if◌then◌else◌,
}
use ribs.Groups.Deals.{DealInfo}

abbrev pub group_state_writable : ℕ
group_state_writable = 0

abbrev pub group_state_offloaded : ℕ
group_state_offloaded = 4

-- The reply to "GroupMeta", of whole numbers; the polling reads `state`.
pub record Meta : Type 0 where
  pub state : ℕ
  pub blocks : ℕ
  pub max_blocks : ℕ
  pub bytes : ℕ
  pub max_bytes : ℕ
  pub piece_cid : Text
  pub root_cid : Text

-- The state `group`: the fields of the reply and `lastRefresh` are undefined before the first one.
pub record GroupData : Type 0 where
  pub info : Option Meta
  pub group_key : Option ℕ
  pub deals : List DealInfo
  pub last_refresh : Option ℕ

abbrev pub no_group : GroupData
no_group = record { info = none; group_key = none; deals = []; last_refresh = none }

-- `group.State === k`
abbrev pub has_state : GroupData → ℕ → Bool
has_state g k = elim g.info [ none ↦ false | some m ↦ m.state == k ]

-- `now - group.lastRefresh < bound`; with `undefined` the difference is NaN.
abbrev pub since_below : GroupData → ℕ → ℕ → Bool
since_below g now bound = elim g.last_refresh [ none ↦ false | some t ↦ ltb now (t + bound) ]

-- The three early returns.
unfoldable pub throttled : GroupData → ℕ → Bool
throttled g now =
    if has_state g group_state_writable && since_below g now 500
    then true
    else if has_state g group_state_offloaded && since_below g now 120000
    then true
    else not (has_state g group_state_writable) && since_below g now 10000

-- `seen` is the `group` of the render that set the interval; `pending` counts calls of `fetchGroup`
-- that wait for the node, `requests` those that ever asked it.
pub record Card : Type 0 where
  pub key : ℕ
  pub seen : GroupData
  pub refreshing : Bool
  pub pending : ℕ
  pub requests : ℕ
  pub group : GroupData

-- A card as it is mounted.
abbrev pub mount : ℕ → Card
mount key = record {
  key = key;
  seen = no_group;
  refreshing = false;
  pending = 0;
  requests = 0;
  group = no_group;
}

-- `fetchGroup` up to its first `await`. Every early return but the first leaves `refreshing` set.
unfoldable pub begin_fetch : ℕ → Card → Card
begin_fetch now c =
    if c.refreshing
    then c
    else if throttled c.seen now
    then record c { refreshing = true }
    else record c { refreshing = true; pending = c.pending + 1; requests = c.requests + 1 }

-- The rest of it, when both replies are there.
unfoldable pub end_fetch : Meta → List DealInfo → ℕ → Card → Card
end_fetch reply deals now c = record c {
  refreshing = false;
  pending = c.pending - 1;
  group = record {
    info = some reply;
    group_key = some c.key;
    deals = deals;
    last_refresh = some now;
  };
}

-- The handler of an error only logs it.
unfoldable pub fail_fetch : Card → Card
fail_fetch c = record c { pending = c.pending - 1 }

-- What happens to a card: the interval or the first call, replies, or an error of a call.
pub data Event : Type 0 where
  tick : ℕ → Event
  replies : Meta → List DealInfo → ℕ → Event
  error : Event

-- Replies and errors only come to a call that waits.
unfoldable pub step : Card → Event → Card
step c (tick now) = begin_fetch now c
step c (replies reply deals now) = if ltb 0 c.pending then end_fetch reply deals now c else c
step c error = if ltb 0 c.pending then fail_fetch c else c

unfoldable pub run : Card → List Event → Card
run c [] = c
run c (e ∷ es) = run (step c e) es
