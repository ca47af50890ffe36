-- ===== src/Examples/Markup.antt =====
-- The pages of a node with two groups and a worker, in the frame of the app.
use ribs.Base.{ℕ, ◌≡◌, refl, true, false, none, some, [], ◌∷◌, ◌++◌, All, arith, codes}
use ribs.Number.Defs.{of_ℕ}
use ribs.Number.Exact.{whole}
use ribs.RepairPage.Page.{Repair, worker_rows}
use ribs.Root.Links.{IsRouted}
use ribs.Markup.Html.{links, tables, texts, bars, IsEven}
use ribs.Markup.Groups.{Cards, group_html}
use ribs.Markup.Deals.{card_html}
use ribs.Markup.Twins.{card_html-group_html}
use ribs.Groups.Polling.{Meta}
use ribs.Groups.Page.{card_view}
use ribs.Groups.Views.{group_link}
use ribs.GroupPage.Page.{Page, run, mount, replies}
use ribs.GroupPage.View.{page_view}
use ribs.Markup.App.{
  Screen, groups_screen, repair_screen, root_html, screen_html, root_html-IsRouted,
  root_html-IsEven,
}
use ribs.Markup.Texts.{Renders, HasTimes}
use ribs.Markup.CardTexts.{IsDated}
use ribs.Markup.Rendering.{root_html-Renders}
use ribs.Examples.Routes.{router, deal}
use ribs.Examples.Providers.{one_day}

abbrev known : Meta
known = record {
  state = 0;
  blocks = 1;
  max_blocks = 10;
  bytes = 100;
  max_bytes = 1000;
  piece_cid = codes "baga";
  root_cid = codes "bafy";
}

-- Each group has one deal.
abbrev cards : Cards
cards key = (
  false,
  record { info = some known; group_key = some key; deals = deal ∷ []; last_refresh = none },
)

abbrev two_groups : Screen
two_groups =
    groups_screen (of_ℕ 0) cards
      (record { buttons = (0, (some 7, some 42)) ∷ []; cards = 7 ∷ 42 ∷ [] })

root_html-IsRouted_example : All (IsRouted router) (
    links
      (root_html (codes "/groups") (codes "RPC: OK") (screen_html one_day (whole 0) two_groups)))
root_html-IsRouted_example =
    root_html-IsRouted router one_day (whole 0) (codes "/groups") (codes "RPC: OK") two_groups
      ((omega arith, (omega arith, tt)), ((omega arith, (omega arith, tt)), tt))

-- A worker that repairs group 42.
abbrev repairing : Repair
repairing = record {
  worker_states =
      (
        1,
        record {
          group_key = 42;
          state = codes "fetching";
          fetch_size = whole 1000;
          fetch_progress = whole 300;
          fetch_url = codes "http://sp/piece";
        },
      )
      ∷ [];
  queue_stats = none;
  prev_worker_states = [];
  prev_fetch_time = whole 0;
  rate_emas = [];
}

repair_tables :
    tables (screen_html one_day (whole 0) (repair_screen repairing))
    ≡ (2 ∷ 2 ∷ []) ∷ (7 ∷ 7 ∷ []) ∷ []
unfolding worker_rows
repair_tables = refl

root_html-IsEven_example : All IsEven (
    tables (
      root_html
        (codes "/repair")
        (codes "RPC: OK")
        (screen_html one_day (whole 0) (repair_screen repairing))))
root_html-IsEven_example =
    root_html-IsEven one_day (whole 0) (codes "/repair") (codes "RPC: OK") (repair_screen repairing)

one_day-HasTimes : HasTimes one_day
one_day-HasTimes t h = tt

group-IsDated : (key : ℕ) → IsDated (cards key).1
group-IsDated key = record {
  blocks = omega arith;
  max_blocks = omega arith;
  ends = (omega arith, tt);
}

root_html-Renders_example :
    Renders
      (root_html (codes "/groups") (codes "RPC: OK") (screen_html one_day (whole 0) two_groups))
root_html-Renders_example =
    root_html-Renders one_day one_day-HasTimes (whole 0) (codes "/groups") (codes "RPC: OK")
      two_groups (group-IsDated 7, (group-IsDated 42, tt))

-- The page of group 42 after its replies.
abbrev on_page : Page
on_page = run (mount 42 1000) (replies 0 known (deal ∷ []) 1200 ∷ [])

card_html-group_html_example :
    let v = card_view one_day on_page.head_height (codes "bafy") true on_page.group in
    let w = page_view one_day on_page in
    let card = card_html 42 v in
    let page = group_html w in
    (texts card ≡ texts page)
    × (bars card ≡ bars page)
    × (links card ≡ group_link 42 ∷ links page)
    × (v.group.counts ≡ w.sealed ++ (w.started ++ w.errors))
card_html-group_html_example = card_html-group_html one_day on_page 42 (codes "bafy")
