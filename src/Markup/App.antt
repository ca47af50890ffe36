-- ===== src/Markup/App.antt =====
-- The markup of the whole app: routes/Root.js around the page of a route.
use ribs.Base.{ℕ, ◌<◌, ◌≡◌, List, Text, codes, All, All-append, All-mono}
use ribs.Number.Defs.{Number}
use ribs.Number.Rounding.{significands}
use ribs.Number.Exact.{whole}
use ribs.Fmt.Dates.{Dates}
use ribs.Groups.Deals.{DealInfo}
use ribs.Groups.Rows.{deal_provider_link}
use ribs.Groups.Page.{GroupsView}
use ribs.GroupPage
use ribs.GroupPage.View.{page_view}
use ribs.Providers.Page.{Provider}
use ribs.Providers.Rows.{provider_rows}
use ribs.ProviderPage.Page.{ProviderState}
use ribs.Content
use ribs.RepairPage.Page.{Repair}
use ribs.Root.Frame.{format_path, nav_items}
use ribs.Root.Routes.{Router}
use ribs.Root.Links.{
  IsRouted, nav_items-IsRouted, group_link-IsRouted, deal_provider_link-IsRouted,
  provider_link-IsRouted,
}
use ribs.Markup.Html.{Html, text, element, link, ◌&◌, each, links, tables, IsEven}
use ribs.Markup.Groups.{
  Cards, IsLinked, groups_html, group_html, groups_html-links, groups_html-tables, group_html-links,
  group_html-plain,
}
use ribs.Markup.Providers.{
  providers_html, provider_html, providers_html-links, providers_html-tables, provider_html-plain,
}
use ribs.Markup.Repair.{repair_html, repair_html-links, repair_html-tables}
use ribs.Markup.Content.{content_html, content_html-links, content_html-tables, listed_ids}
use ribs.Markup.Status.{StatusState, status_html, status_html-IsTile}

-- A page with what it holds; cards have their own state.
pub data Screen : Type 0 where
  status_screen : StatusState → Screen
  groups_screen : (head_height : Number) (cards : Cards) (view : GroupsView) → Screen
  group_screen : GroupPage.Page.Page → Screen
  providers_screen : List Provider → Screen
  provider_screen : (provider_id : Text) (state : ProviderState) → Screen
  content_screen : (cards : Cards) (page : Content.Page.Page) → Screen
  repair_screen : Repair → Screen

abbrev pub nav_item_html : Text × Text → Html
nav_item_html (address, caption) = element (codes "div") (link address (text caption))

-- `Root`, with the mark of `RpcStatus` and the page for its `Outlet`.
abbrev pub root_html : Text → Text → Html → Html
root_html pathname mark outlet = element (codes "div") (
    element (codes "div") (
      element (codes "div") (text (codes "RIBS"))
      & element (codes "div") (text (format_path pathname))
      & element (codes "div") (element (codes "div") (text mark)))
    & element (codes "div") (each nav_item_html nav_items)
    & element (codes "div") outlet)

module _ (dates : Dates) (now : Number) where
  abbrev pub screen_html : Screen → Html
  screen_html (status_screen s) = status_html s
  screen_html (groups_screen head_height cards view) = groups_html dates head_height cards view
  screen_html (group_screen p) = group_html (page_view dates p)
  screen_html (providers_screen ps) = providers_html (provider_rows dates now 0 ps)
  screen_html (provider_screen provider_id s) = provider_html dates now provider_id s
  screen_html (content_screen cards p) = content_html dates cards p
  screen_html (repair_screen s) = repair_html s

-- The keys of groups and the ids of providers are whole numbers below 2 ^ 53, wherever a page links to
-- them.
abbrev pub IsSmall : ℕ → Type 0
IsSmall n = n < significands

abbrev pub AreDealsSmall : List DealInfo → Type 0
AreDealsSmall ds = All (λ d. IsSmall d.provider) ds

abbrev pub IsCardSmall : Cards → ℕ → Type 0
IsCardSmall cards key = IsSmall key × AreDealsSmall (cards key).1.deals

abbrev pub IsScreenSmall : Screen → Type 0
IsScreenSmall (status_screen s) = Unit
IsScreenSmall (groups_screen head_height cards view) = All (IsCardSmall cards) view.cards
IsScreenSmall (group_screen p) = AreDealsSmall p.group.deals
IsScreenSmall (providers_screen ps) = All (λ p. (n : ℕ) × (IsSmall n × (p.id ≡ whole n))) ps
IsScreenSmall (provider_screen provider_id s) = Unit
IsScreenSmall (content_screen cards p) = All (IsCardSmall cards) (listed_ids p.group_ids)
IsScreenSmall (repair_screen s) = All (λ w. IsSmall w.1.group_key) s.worker_states

module _ (r : Router) (dates : Dates) (now : Number) where
  deals-IsRouted :
      (ds : List DealInfo) → AreDealsSmall ds → All (λ d. IsRouted r (deal_provider_link d)) ds
  deals-IsRouted ds a = All-mono _ _ ds (deal_provider_link-IsRouted r) a

  cards-IsLinked :
      (cards : Cards) (keys : List ℕ)
      → All (IsCardSmall cards) keys
      → All (IsLinked (IsRouted r) cards) keys
  cards-IsLinked cards keys a =
      All-mono _ _ keys
        (λ key (h, ds). (group_link-IsRouted r key h, deals-IsRouted (cards key).1.deals ds)) a

  screen_html-links :
      (s : Screen) → IsScreenSmall s → All (IsRouted r) (links (screen_html dates now s))
  screen_html-links (status_screen s) h = rw (status_html-IsTile s).0 tt
  screen_html-links (groups_screen head_height cards view) h =
      groups_html-links (IsRouted r) dates head_height cards view
        (cards-IsLinked cards view.cards h)
  screen_html-links (group_screen p) h =
      group_html-links (IsRouted r) dates p (deals-IsRouted p.group.deals h)
  screen_html-links (providers_screen ps) h =
      providers_html-links (IsRouted r) dates now 0 ps
        (All-mono _ _ ps (λ p (n, (hn, e)). provider_link-IsRouted r p n hn e) h)
  screen_html-links (provider_screen provider_id s) h =
      rw (provider_html-plain dates now provider_id s).0 tt
  screen_html-links (content_screen cards p) h =
      content_html-links dates cards (IsRouted r) p
        (cards-IsLinked cards (listed_ids p.group_ids) h)
  screen_html-links (repair_screen s) h =
      repair_html-links (IsRouted r) s
        (All-mono _ _ s.worker_states (λ w. group_link-IsRouted r w.1.group_key) h)

  -- On every page of the app, in its frame, each link of react-router is the address of one of the
  -- routes, where the keys of groups and the ids of providers that the page links to are whole numbers
  -- below 2 ^ 53.
  pub root_html-IsRouted :
      (pathname mark : Text) (s : Screen)
      → IsScreenSmall s
      → All (IsRouted r) (links (root_html pathname mark (screen_html dates now s)))
  root_html-IsRouted pathname mark s h =
      All-append (IsRouted r) (links (each nav_item_html nav_items))
        (links (screen_html dates now s)) (nav_items-IsRouted r) (screen_html-links s h)

module _ (dates : Dates) (now : Number) where
  screen_html-tables : (s : Screen) → All IsEven (tables (screen_html dates now s))
  screen_html-tables (status_screen s) = (status_html-IsTile s).1
  screen_html-tables (groups_screen head_height cards view) =
      rw (groups_html-tables dates head_height cards view) tt
  screen_html-tables (group_screen p) = rw (group_html-plain (page_view dates p)).1 tt
  screen_html-tables (providers_screen ps) = providers_html-tables (provider_rows dates now 0 ps)
  screen_html-tables (provider_screen provider_id s) =
      (provider_html-plain dates now provider_id s).1
  screen_html-tables (content_screen cards p) = rw (content_html-tables dates cards p) tt
  screen_html-tables (repair_screen s) = repair_html-tables s

  -- On every page of the app, in its frame, the rows of each table take the same number of columns,
  -- those of its head included.
  pub root_html-IsEven :
      (pathname mark : Text) (s : Screen)
      → All IsEven (tables (root_html pathname mark (screen_html dates now s)))
  root_html-IsEven pathname mark s = screen_html-tables s
