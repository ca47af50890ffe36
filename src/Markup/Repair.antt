-- ===== src/Markup/Repair.antt =====
-- The markup of routes/Repair.js.
use ribs.Base.{All-map, refl, List, [], ◌∷◌, Text, codes, All}
use ribs.Groups.Views.{group_link}
use ribs.RepairPage.Page.{Repair, WorkerRow, queue_row, worker_row, worker_rows}
use ribs.Markup.Html.{
  Html, text, formatted, element, link, bar, table, row, cell, ◌&◌, each, cell_of, head_row, links,
  tables, IsEven, percent, links-each-All, tables-each, row_widths-each,
}

abbrev pub queue_row_html : Text × Text → Html
queue_row_html (total, assigned) = row (cell_of total & cell_of assigned)

abbrev pub worker_row_html : WorkerRow → Html
worker_row_html r = row (
    cell_of r.worker
    & cell 1 (link r.link (text r.group))
    & cell_of r.state
    & cell 1 (formatted r.size)
    & cell 1 (formatted r.rate)
    & cell 1 (element (codes "div") (bar (percent r.bar)))
    & cell_of r.url)

abbrev pub queue_head : List Text
queue_head = codes "Total" ∷ codes "Assigned" ∷ []

abbrev pub workers_head : List Text
workers_head =
    codes "Worker"
    ∷ codes "Group"
    ∷ codes "State"
    ∷ codes "Fetch Size"
    ∷ codes "Fetch Rate"
    ∷ codes "Fetch Progress"
    ∷ codes "Fetch URL"
    ∷ []

-- `Repair` of routes/Repair.js
abbrev pub repair_html : Repair → Html
repair_html s = element (codes "div") (
    element (codes "div") (element (codes "h1") (text (codes "Repair")))
    & element (codes "div") (
        element (codes "h2") (text (codes "Repair Queue"))
        & table (
            element (codes "thead") (head_row queue_head)
            & element (codes "tbody") (queue_row_html (queue_row s.queue_stats))))
    & element (codes "div") (
        element (codes "h2") (text (codes "Worker States"))
        & table (
            element (codes "thead") (head_row workers_head)
            & element (codes "tbody") (each worker_row_html (worker_rows s)))))

-- The page links to the groups that the workers repair.
pub repair_html-links :
    (P : Text → Type 0) (s : Repair)
    → All (λ w. P (group_link w.1.group_key)) s.worker_states
    → All P (links (repair_html s))
unfolding worker_rows worker_row
repair_html-links P s a = links-each-All P worker_row_html (worker_rows s) (
    All-map (λ w. P (group_link w.1.group_key)) (λ r. All P (links (worker_row_html r)))
      (worker_row s.rate_emas) s.worker_states (λ w h. (h, tt)) a)

-- The two tables of the page are even.
pub repair_html-tables : (s : Repair) → All IsEven (tables (repair_html s))
repair_html-tables s =
    rw (tables-each worker_row_html (worker_rows s) (λ r. refl))
      ((refl, tt), (row_widths-each worker_row_html 7 (worker_rows s) (λ r. refl), tt))
