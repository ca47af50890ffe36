-- ===== src/Markup/Rendering.antt =====
-- Whether the pages of the app come out: the texts of their formatters.
use ribs.Base.{Text, All, All-map}
use ribs.Number.Defs.{Number}
use ribs.Number.Bounds.{IsDouble}
use ribs.Fmt.Dates.{Dates}
use ribs.Fmt.Loops.{Returns-map, format_bytes_binary-Returns}
use ribs.RepairPage.Page.{Repair, worker_rows, worker_row, known_rate}
use ribs.Markup.Texts.{Renders, HasTimes, each-Renders}
use ribs.Markup.CardTexts.{IsDated}
use ribs.Markup.GroupTexts.{groups_html-Renders, group_html-Renders, content_html-Renders}
use ribs.Markup.ProviderTexts.{
  HasStart, AreInfosDated, providers_html-Renders, provider_html-Renders,
}
use ribs.Markup.StatusTexts.{IsStatusShown, status_html-Renders}
use ribs.Markup.Repair.{worker_row_html, repair_html}
use ribs.Markup.Content.{listed_ids}
use ribs.Markup.App.{
  Screen, status_screen, groups_screen, group_screen, providers_screen, provider_screen,
  content_screen, repair_screen, screen_html, root_html,
}
use ribs.RepairPage.Bars.{IsFetching, worker_row-range}

-- Numbers and times for which the formatters return.
abbrev pub IsShown : Screen → Type 0
IsShown (status_screen s) = IsStatusShown s
IsShown (groups_screen head_height cards view) = All (λ key. IsDated (cards key).1) view.cards
IsShown (group_screen p) = IsDated p.group
IsShown (providers_screen ps) = All HasStart ps
IsShown (provider_screen provider_id s) = AreInfosDated s.provider
IsShown (content_screen cards p) = All (λ key. IsDated (cards key).1) (listed_ids p.group_ids)
IsShown (repair_screen s) =
    All (λ w. IsFetching w.1 × IsDouble (known_rate w.0 s.rate_emas)) s.worker_states

repair_html-Renders :
    (s : Repair)
    → All (λ w. IsFetching w.1 × IsDouble (known_rate w.0 s.rate_emas)) s.worker_states
    → Renders (repair_html s)
unfolding worker_rows worker_row
repair_html-Renders s a = each-Renders worker_row_html (worker_rows s) (
    All-map _ (λ r. Renders (worker_row_html r)) (worker_row s.rate_emas) s.worker_states
      (λ w (f, d). (
        (worker_row-range w.0 w.1 s.rate_emas f).1,
        (Returns-map _ _ (format_bytes_binary-Returns (known_rate w.0 s.rate_emas) d).0, tt),
      ))
      a)

module _ (dates : Dates) (times : HasTimes dates) (now : Number) where
  -- On every page of the app in its frame, each text that a formatter makes is there, so that no
  -- formatter loops for ever and none throws, and so is each count of the providers on the status
  -- page. The last reply to "ReachableProviders" is not null, and the other replies are of the types
  -- of the states here. The numbers of blocks are below 2 ^ 53, the numbers of bytes are doubles,
  -- finite on the status page, and the times of deals and providers are whole seconds and epochs up to
  -- the last time that a date of the language has, for all of which `toISOString` returns. Workers
  -- have fetched whole numbers of bytes, up to sizes below 2 ^ 53 - 1. The rates of the status page
  -- come from any polls of counters up to a bound 8 n, with 16 n below 2 ^ 53, and its share of pauses
  -- in percent is not +Infinity.
  pub root_html-Renders :
      (pathname mark : Text) (s : Screen)
      → IsShown s
      → Renders (root_html pathname mark (screen_html dates now s))
  root_html-Renders pathname mark (status_screen s) h = status_html-Renders s h
  root_html-Renders pathname mark (groups_screen head_height cards view) h =
      groups_html-Renders dates times head_height cards view h
  root_html-Renders pathname mark (group_screen p) h = group_html-Renders dates times p h
  root_html-Renders pathname mark (providers_screen ps) h =
      providers_html-Renders dates times now ps h
  root_html-Renders pathname mark (provider_screen provider_id s) h =
      provider_html-Renders dates times now provider_id s.head_height s.provider h
  root_html-Renders pathname mark (content_screen cards p) h =
      content_html-Renders dates times cards p h
  root_html-Renders pathname mark (repair_screen s) h = repair_html-Renders s h
