-- ===== src/Markup/Tiles.antt =====
-- The markup of the tiles of routes/Status.js that are no plain table of labels and values. Its tables
-- have their texts from the modules under Status/.
use ribs.Base.{◌≡◌, refl, Option, none, some, List, [], ◌∷◌, ◌++◌, Text, codes, All, All-append}
use ribs.Status.Cells.{Row}
use ribs.Status.DealTiles.{UploadRow}
use ribs.Status.InternalTiles.{NodeRow}
use ribs.Status.WalletTable.{Menu, WalletTable}
use ribs.Markup.Html.{
  Html, blank, text, formatted, element, bar, table, row, cell, ◌&◌, optional, each, cell_of,
  head_row, anchor_of, links, tables, row_widths, IsEven, IsPlain, optional-IsPlain, each-IsPlain,
  each-IsEven, row_widths-each,
}

-- A row of two cells, or of a bar across both where it has no label.
abbrev pub row_html : (Text → Html) → Row → Html
row_html label_html ([], value) = row (cell 2 (element (codes "div") (optional bar value)))
row_html label_html (c ∷ label, value) =
    row (cell 1 (label_html (c ∷ label)) & cell 1 (formatted value))

abbrev pub bold : Text → Html
bold t = element (codes "b") (text t)

-- A tile: its heading over its table.
abbrev pub tile_of : Text → Html → Html
tile_of heading rows =
    element (codes "div")
      (element (codes "h2") (text heading) & table (element (codes "tbody") rows))

abbrev pub upload_row_html : UploadRow → Html
upload_row_html (group, requests, rate) =
    row (cell_of group & cell_of requests & cell 1 (formatted rate))

abbrev pub upload_head : List Text
upload_head = codes "Group" ∷ codes "Reqs" ∷ codes "Rate" ∷ []

-- `CarUploadStatsTile`
abbrev pub upload_html : List UploadRow → Html
upload_html rows = element (codes "div") (
    element (codes "h2") (text (codes "Car Upload Stats"))
    & table (
        element (codes "thead") (head_row upload_head)
        & element (codes "tbody") (each upload_row_html rows)))

-- `P2PNodes`
abbrev pub node_row_html : NodeRow → Html
node_row_html n = row (
    cell 2 (element (codes "h3") (text n.name))
    & cell 2 (element (codes "p") (text n.shown))
    & cell 2 (text n.peers))

abbrev pub menu_html : Menu → Html
menu_html m =
    row (cell 2 (element (codes "input") blank & element (codes "button") (text m.button)))

abbrev pub wallet_link_html : Text × Text → Html
wallet_link_html (caption, address) = anchor_of (address, caption)

abbrev pub wallet_row_html : Text → Text → Html
wallet_row_html label value = row (cell_of label & cell_of value)

-- The table of `WalletInfoTile`.
abbrev pub wallet_table_html : WalletTable → Html
wallet_table_html w = table (
    element (codes "tbody") (
      wallet_row_html (codes "Address") w.address
      & row (cell 2 (each wallet_link_html w.links))
      & wallet_row_html (codes "Balance:") w.balance
      & row (
          cell_of (codes "Market Balance:")
          & cell 1 (
              text (w.market_balance ++ codes " ")
              & element (codes "button") (text (codes "Add"))
              & text (codes " ")
              & element (codes "button") (text (codes "Withdraw"))))
      & optional menu_html w.menu
      & wallet_row_html (codes "Market Locked:") w.market_locked
      & wallet_row_html (codes "DataCap:") w.data_cap))

-- `WalletInfoTile`
abbrev pub wallet_html : Option WalletTable → Html
wallet_html w =
    element (codes "div")
      (element (codes "h2") (text (codes "Wallet Info")) & optional wallet_table_html w)

-- `DealCountsChart`, whose chart is drawn by recharts.
abbrev pub chart_html : Html
chart_html = element (codes "div") (
    element (codes "h2") (text (codes "Deals Per Group"))
    & element (codes "ResponsiveContainer") blank)

-- No links of the app, and rows of the same number of columns in each table.
abbrev pub IsTile : Html → Type 0
IsTile h = (links h ≡ []) × All IsEven (tables h)

row_html-IsPlain :
    (label_html : Text → Html)
    → ((t : Text) → IsPlain (label_html t))
    → (r : Row) → IsPlain (row_html label_html r)
row_html-IsPlain label_html h ([], value) = optional-IsPlain bar value (λ t. (refl, refl))
row_html-IsPlain label_html h (c ∷ label, value) =
    let (l, t) = h (c ∷ label) in (rw l refl, rw t refl)

row_html-row_widths :
    (label_html : Text → Html) (r : Row) → row_widths (row_html label_html r) ≡ 2 ∷ []
row_html-row_widths label_html ([], value) = refl
row_html-row_widths label_html (c ∷ label, value) = refl

-- A tile of labels and values.
pub tile_of-IsTile :
    (heading : Text) (label_html : Text → Html)
    → ((t : Text) → IsPlain (label_html t))
    → (rows : List Row) → IsTile (tile_of heading (each (row_html label_html) rows))
tile_of-IsTile heading label_html h rows =
    let (l, t) = each-IsPlain (row_html label_html) rows (row_html-IsPlain label_html h) in
    (l, rw t (each-IsEven (row_html label_html) 2 rows (row_html-row_widths label_html), tt))

pub upload_html-IsTile : (rows : List UploadRow) → IsTile (upload_html rows)
upload_html-IsTile rows =
    let (l, t) = each-IsPlain upload_row_html rows (λ r. (refl, refl)) in
    (l, rw t (row_widths-each upload_row_html 3 rows (λ r. refl), tt))

pub nodes_html-IsTile :
    (heading : Text) (rows : List NodeRow) → IsTile (tile_of heading (each node_row_html rows))
nodes_html-IsTile heading rows =
    let (l, t) = each-IsPlain node_row_html rows (λ r. (refl, refl)) in
    (l, rw t (each-IsEven node_row_html 6 rows (λ r. refl), tt))

menu_html-row_widths : (m : Option Menu) → All (λ n. n ≡ 2) (row_widths (optional menu_html m))
menu_html-row_widths none = tt
menu_html-row_widths (some m) = (refl, tt)

wallet_table_html-IsTile : (w : WalletTable) → IsTile (wallet_table_html w)
wallet_table_html-IsTile w =
    let (ll, lt_) = each-IsPlain wallet_link_html w.links (λ a. (refl, refl)) in
    let (ml, mt) = optional-IsPlain menu_html w.menu (λ m. (refl, refl)) in
    let rest =
      All-append (λ n. n ≡ 2) (row_widths (optional menu_html w.menu)) (2 ∷ 2 ∷ [])
        (menu_html-row_widths w.menu) (refl, (refl, tt)) in
    (rw (ll, ml) refl, rw (lt_, mt) ((refl, (refl, (refl, rest))), tt))

pub wallet_html-IsTile : (w : Option WalletTable) → IsTile (wallet_html w)
wallet_html-IsTile none = (refl, tt)
wallet_html-IsTile (some w) = wallet_table_html-IsTile w
