-- ===== src/Examples/Rounds.antt =====
-- The rounds of calls of routes/Status.js, the pages of routes/Groups.js and null replies.
use mathlib.Core.Option
use ribs.Base.{
  ℕ, ◌+◌, ◌-◌, ◌<◌, ◌≡◌, refl, false, none, some, List, [], ◌∷◌, ◌++◌, arith, length, get_elem?,
}
use ribs.Number.Defs.{of_ℕ}
use ribs.Groups.Pages.{total_pages, button_page}
use ribs.Groups.Page.{
  GroupsState, groups_state, reply, error, handle_page_change, GroupsView, groups_view,
}
use ribs.Groups.Buttons.{Event, fetched, changed, run, stays, run-stays, click-label}
use ribs.Status.Fetch.{Shown, Answers}
use ribs.Status.Rounds.{
  Replies, Page, tick, answered, threw, asks_wallet_info, mount, round_events, calls, step, answer,
  set_answered, set_rest,
}
use ribs.Status.Interleaved.{RestFrom, WalletFrom, run-one_round}
use ribs.Status.Awaits.{rest, rest_of}
use ribs.Status.Late.{replies_to, first_eight, late-round}
use ribs.Status.Alone.{IsAfter, round-IsAfter}

abbrev answers : ℕ → Answers ℕ
answers n = record {
  wallet_info = some (n + 1);
  groups = some (n + 2);
  crawl_state = some (n + 3);
  car_upload_stats = some (n + 4);
  reachable_providers = some (n + 5);
  deal_summary = some (n + 6);
  retr_stats = some (n + 7);
  retr_checker_stats = some (n + 8);
  worker_stats = some (n + 9);
}

abbrev replies : ℕ → Replies ℕ
replies n = record {
  wallet_info = n + 1;
  groups = n + 2;
  crawl_state = n + 3;
  car_upload_stats = n + 4;
  reachable_providers = n + 5;
  deal_summary = n + 6;
  retr_stats = n + 7;
  retr_checker_stats = n + 8;
  worker_stats = n + 9;
}

abbrev blank : Shown ℕ
blank = ribs.Status.Fetch.start 0

-- The wallet of the second round comes in while the first one still goes on.
abbrev overlapping : List (ribs.Status.Rounds.Event ℕ)
overlapping = tick ∷ answered 1 101 ∷ round_events 0 (calls (answers 0))

run-one_round_example :
    RestFrom blank (ribs.Status.Rounds.run (mount blank) overlapping)
    × WalletFrom blank (ribs.Status.Rounds.run (mount blank) overlapping)
run-one_round_example = run-one_round blank overlapping

abbrev two_rounds : Page ℕ
two_rounds = ribs.Status.Rounds.run (mount blank) (tick ∷ [])

two_started : two_rounds.started ≡ 2
unfolding ribs.Status.Rounds.run ribs.Status.Rounds.step mount
two_started = refl

second_started : 1 < two_rounds.started
second_started = rw two_started (omega arith)

both_wait : (two_rounds.rounds 0 ≡ asks_wallet_info) × (two_rounds.rounds 1 ≡ asks_wallet_info)
unfolding ribs.Status.Rounds.run ribs.Status.Rounds.step mount
both_wait = (refl, refl)

round-IsAfter_example :
    IsAfter
      (answers 0)
      two_rounds.shown
      (ribs.Status.Rounds.run two_rounds (round_events 1 (calls (answers 0)))).shown
round-IsAfter_example = round-IsAfter 1 two_rounds (answers 0) second_started both_wait.1

-- The newer round is answered and ends while the older one waits for its third reply.
abbrev overtaken : List (ribs.Status.Rounds.Event ℕ)
overtaken =
    answered 0 1
    ∷ answered 0 2
    ∷ (round_events 1 (calls (answers 100))
        ++ (tick
            ∷ answered 0 3
            ∷ answered 0 4
            ∷ answered 0 5
            ∷ threw 2
            ∷ answered 0 6
            ∷ answered 0 7
            ∷ answered 0 8
            ∷ []))

overtaken-first_eight : replies_to 0 overtaken ≡ first_eight (replies 0)
unfolding round_events
overtaken-first_eight = refl

late-round_example :
    rest (ribs.Status.Rounds.run two_rounds (overtaken ++ answered 0 9 ∷ [])).shown
    ≡ rest_of (replies 0)
late-round_example =
    late-round 0 two_rounds overtaken (replies 0) (rw two_started (omega arith)) both_wait.0
      overtaken-first_eight

-- A reply with two groups.
abbrev listed : ribs.Groups.Buttons.Event
listed = fetched (reply (some (1 ∷ 2 ∷ []))) (reply (of_ℕ 9))

run-stays_example :
    stays (
      run
        (some groups_state)
        (listed ∷ changed 0 ∷ fetched error error ∷ fetched (reply none) error ∷ []))
    ≡ false
run-stays_example =
    run-stays (listed ∷ changed 0 ∷ fetched error error ∷ fetched (reply none) error ∷ [])

abbrev three : List ℕ
three = 7 ∷ 8 ∷ 9 ∷ []

abbrev three_groups : GroupsState
three_groups = record groups_state { group_keys = some three }

one_page : 0 < total_pages three
unfolding total_pages
one_page = omega arith

click-label_example :
    (after : GroupsView) × (groups_view (handle_page_change (button_page three 0) three_groups)
      ≡ some after)
    × (0 < length after.cards)
    × (Option.map (λ view. get_elem? view.buttons 0) (groups_view three_groups)
        ≡ some (
            some (
              button_page three 0,
              (get_elem? after.cards 0, get_elem? after.cards (length after.cards - 1)),
            )))
click-label_example = click-label three_groups three 0 refl one_page
