-- ===== src/GroupPage/Page.antt =====
-- `Group` (routes/Group.js): its polling, also when the address changes to another group while the
-- page stays. The effect runs anew for a new `groupKey`, and the interval then calls the `fetchGroup` of that
-- render: it sees that render's `group` and owns that render's `refreshing`. Calls made before go on.
use ribs.Base.{
  ℕ, zero, suc, ◌+◌, ◌-◌, Bool, true, false, Option, none, some, List, [], ◌∷◌, ◌++◌, ◌==◌, ltb,
  Text, if◌then◌else◌,
}
use ribs.Number.Defs.{Number, of_ℕ}
use ribs.Number.Parse.{parse_int_text}
use ribs.Groups.Deals.{DealInfo}
use ribs.Groups.Polling.{Meta, GroupData, no_group, throttled}

-- The key from the address.
unfoldable pub group_key_of : Text → Number
group_key_of group_key = parse_int_text group_key

-- A call of `fetchGroup` that waits for the node: the render that it belongs to, and its key.
pub record Fetch : Type 0 where
  pub render : ℕ
  pub key : ℕ

-- `render`, `seen` and `refreshing` are of the render whose function the interval calls; `heads` counts
-- the calls that wait for "ChainHead", `requests` those of this render that asked the node.
pub record Page : Type 0 where
  pub key : ℕ
  pub render : ℕ
  pub seen : GroupData
  pub refreshing : Bool
  pub fetches : List Fetch
  pub heads : ℕ
  pub requests : ℕ
  pub group : GroupData
  pub head_height : Number

-- `fetchGroup` up to its first `await`.
unfoldable pub begin_fetch : ℕ → Page → Page
begin_fetch now p =
    if p.refreshing
    then p
    else if throttled p.seen now
    then record p { refreshing = true }
    else record p {
      refreshing = true;
      fetches = p.fetches ++ record { render = p.render; key = p.key } ∷ [];
      requests = p.requests + 1;
    }

-- The call at a place of the list, and the list without it.
abbrev pub fetch_at : List Fetch → ℕ → Option Fetch
fetch_at [] i = none
fetch_at (f ∷ fs) zero = some f
fetch_at (f ∷ fs) (suc i) = fetch_at fs i

abbrev pub without : List Fetch → ℕ → List Fetch
without [] i = []
without (f ∷ fs) zero = fs
without (f ∷ fs) (suc i) = f ∷ without fs i

-- Both replies are there: the group is shown, and "ChainHead" is called.
unfoldable pub end_fetch : ℕ → Option Fetch → Meta → List DealInfo → ℕ → Page → Page
end_fetch i none reply deals now p = p
end_fetch i (some f) reply deals now p = record p {
  refreshing = if f.render == p.render then false else p.refreshing;
  fetches = without p.fetches i;
  heads = p.heads + 1;
  group = record {
    info = some reply;
    group_key = some f.key;
    deals = deals;
    last_refresh = some now;
  };
}

-- The handler of an error only logs it.
unfoldable pub fail_fetch : ℕ → Page → Page
fail_fetch i p = record p { fetches = without p.fetches i }

-- What a reply or an error of "ChainHead" leaves of the page.
abbrev pub set_head : Option Number → Page → Page
set_head none p = record p { heads = p.heads - 1 }
set_head (some height) p = record p { heads = p.heads - 1; head_height = height }

unfoldable pub end_head : Option Number → Page → Page
end_head height p = if ltb 0 p.heads then set_head height p else p

-- The page as its next render finds it, for another key.
abbrev pub turned : ℕ → Page → Page
turned key p = record p {
  key = key;
  render = p.render + 1;
  seen = p.group;
  refreshing = false;
  requests = 0;
}

-- The effect for another key: a new render, whose function is called at once.
unfoldable pub visit_key : ℕ → ℕ → Page → Page
unfolding begin_fetch
visit_key key now p = if key == p.key then p else begin_fetch now (turned key p)

-- The page as its first render finds it, and as it is mounted.
abbrev pub first : ℕ → Page
first key = record {
  key = key;
  render = 0;
  seen = no_group;
  refreshing = false;
  fetches = [];
  heads = 0;
  requests = 0;
  group = no_group;
  head_height = of_ℕ 0;
}

unfoldable pub mount : ℕ → ℕ → Page
mount key now = begin_fetch now (first key)

-- What happens while the page stays: the interval, the replies or an error of a call that waits, those
-- of "ChainHead" (none for an error), and another address.
pub data Event : Type 0 where
  tick : ℕ → Event
  replies : ℕ → Meta → List DealInfo → ℕ → Event
  error : ℕ → Event
  head : Option Number → Event
  visit : ℕ → ℕ → Event

unfoldable pub step : Page → Event → Page
unfolding begin_fetch end_fetch fail_fetch end_head visit_key
step p (tick now) = begin_fetch now p
step p (replies i reply deals now) = end_fetch i (fetch_at p.fetches i) reply deals now p
step p (error i) = fail_fetch i p
step p (head height) = end_head height p
step p (visit key now) = visit_key key now p

unfoldable pub run : Page → List Event → Page
unfolding step
run p [] = p
run p (e ∷ es) = run (step p e) es
