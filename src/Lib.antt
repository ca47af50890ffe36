-- ===== src/Lib.antt =====
-- RIBS web app, the user interface of a RIBS node (integrations/web/ribswebapp/src).
--
-- The app is a single page in JavaScript. helpers/rpc.js keeps one connection to the node, reconnects
-- it and retries calls. The pages in routes/ call it from intervals, keep what the node answers in the
-- state of React components, and show it with the formatters of helpers/fmt.js.
--
-- Files:
-- - Base, Base/Tests, Base/Lists, Base/Texts: shared names, Boolean tests, lists and strings. A string
--   is the list of its UTF-16 code units.
-- - Number/Defs, Number/Rounding, Number/Exact, Number/Print, Number/Parse: JavaScript numbers. A
--   finite number is a sign and a magnitude in units of 2 ^ -1074; every operation rounds to 53 bits,
--   halves to even, and overflows to infinity. Number/Exact has the cases in which nothing is rounded,
--   Number/Bounds and Number/Percent bounds that rounding keeps, Number/Numerals the numerals of whole
--   numbers. Number/Print has String(x), toFixed and parseInt of a number, Number/Parse parseInt of a
--   string.
-- - Fmt/Units, Fmt/Duration, Fmt/Dates: helpers/fmt.js (formatBytesBinary is format_bytes_binary, and
--   so on). Date is the parameter Dates. Fmt/Scaling, Fmt/Bytes, Fmt/Times, Fmt/Prices, Fmt/Loops,
--   Fmt/Averages, Fmt/Stamps, Fmt/Timestamps: what the formatters show and when they return.
-- - Rpc/Connection, Rpc/Retry: class RibsRPC of helpers/rpc.js. createInstance, get, autoReconnect,
--   onConnect and onDisconnect are create_instance, get, connect, on_connect and on_disconnect on the
--   static fields and the listeners of each socket; a close and a timer are events. call and callFil
--   run against a function that says what the node answers to each attempt. Rpc/Counts, Rpc/Callbacks,
--   Rpc/Listeners, Rpc/Reconnect, Rpc/Registered, Rpc/Exactly: the listeners over any sequence of
--   events, beside the callbacks that the events register.
-- - Polling/Effects, Polling/Load: the effects with an interval in routes/, a constant each, the calls
--   that they make through helpers/rpc.js, and how many these are. Calls with parameters, as those of
--   routes/Provider.js, have the node as a function of the method alone.
-- - Groups/Pages, Groups/Deals, Groups/Polling, Groups/Page, Groups/Views, Groups/Rows:
--   routes/Groups.js, its pages of groups, its deals, the polling of fetchGroup, as steps of a card that
--   ticks, replies and errors reach in any order, and what a card and a deal show. The function that an
--   interval calls belongs to the render that set it. Groups/Refresh: what the polling does over time.
--   Groups/Buttons: the list and its buttons over time, null replies among them.
-- - GroupPage/Page, GroupPage/View: routes/Group.js, which polls in the same way but stays when the
--   address changes: a visit of another key is a step as well, and calls that were made before it may
--   still be answered. GroupPage/Steps, GroupPage/Polls, GroupPage/Elsewhere, GroupPage/Visits: the
--   polling while the address stays and after it has changed.
-- - Status/Meter, Status/Timed, Status/Upload, Status/DealCounts, Status/Wallet, Status/Fetch: the
--   tiles of routes/Status.js and the calls of the page. A handler's code after its last await is one
--   step. Status/Cells, Status/StorageTiles, Status/DealTiles, Status/RetrievalTiles,
--   Status/InternalTiles, Status/WalletTable: the rows of their tables. Status/UploadTimer: the interval
--   of the upload tile, which keeps the values of a render. Status/Rounds: fetchStatus at each of its
--   awaits, with rounds that overlap; Status/Awaits, Status/Interleaved, Status/Late, Status/Alone: such
--   rounds in any order, one that ends among others, and one by itself; Status/Agreement: the two
--   models of fetchStatus side by side. Status/Rates, Status/UploadRates, Status/UploadDecay,
--   Status/WalletClicks, Status/Rendering, Status/Tables, Status/Replies, Status/Percentages: what the
--   tiles show.
-- - Providers/Page, Providers/Rows: routes/Providers.js, with the CSV file in generate_csv_data.
--   Providers/Download: downloadCSV. Providers/Percentages, Providers/Csv: its bars and its file.
--   Providers/Refresh: its list through the calls of helpers/rpc.js.
-- - ProviderPage/Page, ProviderPage/Rows: routes/Provider.js. ProviderPage/Mounted: the page while
--   its address changes; ProviderPage/Visits: what it asks for and shows then.
-- - RepairPage/Page: routes/Repair.js. RepairPage/Rates, RepairPage/Bars: its rates and bars.
-- - Root/Frame: routes/Root.js. Root/Routes: the routes of index.js, with the router that react-router
--   makes of them as a parameter whose law is the documented matching. Root/Links: the links of all
--   pages through these routes. Root/RpcStatus, Root/Marks: the mark of the connection,
--   routes/Root/RpcStatus.js, joined with the connection that runs its callbacks.
-- - Content/Page, Content/Clicks, Content/Searches: routes/Content.js. A null reply is none.
-- - Markup/Html, and Markup/Deals, Groups, Providers, Repair, Content, Tiles, Status, App beside it: what
--   the components return, as trees made of the texts of the modules above, in the frame of Root.js. App
--   joins the pages; a card keeps its own state. Markup/Texts, CardTexts, GroupTexts, ProviderTexts,
--   StatusTexts, Rendering: whether the texts in them come out. Markup/Twins: a card and the page of its
--   group.
-- - Examples: tests and the theorems at concrete inputs.
--
-- Fuel and bounds: the loops of the formatters have fuel 120 (loop_fuel), and a result is none when it
-- runs out; a round takes at least nine bits off a magnitude of less than 2 ^ 2098 units, and the
-- loops end at the latest below the base, so 120 rounds are enough for every double but +Infinity.
-- The search for the rounding step has fuel 2100, more than the exponents of doubles. Whole numbers
-- are exact below 2 ^ 53.
--
-- Not modelled: the client of rpc-websockets, React, the browser and the node, whose answers are
-- arguments and events; react-router and Date, parameters; classes, styles and keys of the markup,
-- and the drawing of the chart. The ticks of intervals are the browser's: events, or times that are a
-- period apart. The programs in Go behind the app (rbstor, rbdeal, carlog, bsst, ributil, kuri) are
-- not part of this model.
pub mod Base
pub mod Number
pub mod Polling
pub mod Markup
pub mod Fmt
pub mod Rpc
pub mod Groups
pub mod Status
pub mod Content
pub mod Examples
pub mod Providers
pub mod Root
pub mod ProviderPage
pub mod GroupPage
pub mod RepairPage
