-- ===== src/Examples/Polls.antt =====
-- The status page: its polling under a node that always fails, and its tables.
use ribs.Base.{ℕ, ◌+◌, ◌*◌, ◌/◌, ◌≤◌, ◌<◌, ◌≡◌, ◌⊎◌, none, some, false, [], ◌∷◌, arith}
use ribs.Number.Rounding.{significands}
use ribs.Number.Defs.{of_ℕ, inf, mul}
use ribs.Number.Exact.{whole}
use ribs.Number.Bounds.{IsWithin-IsDouble}
use ribs.Fmt.Loops.{IsFinite}
use ribs.Status.Rendering.{Shows}
use ribs.Status.StorageTiles.{groups_rows}
use ribs.Status.DealTiles.{deals_rows}
use ribs.Status.RetrievalTiles.{retr_rows}
use ribs.Status.InternalTiles.{RuntimeStats, runtime_rows}
use ribs.Status.Replies.{replies-Shows}
use ribs.Rpc.Retry.{failed}
use ribs.Polling.Effects.{status_page, tick, Node}
use ribs.Polling.Load.{Life, page_load, status_page-load}

abbrev broken : Node ℕ ℕ
broken i method params = failed i

-- Every interval ticks once, and once more after the page has gone.
abbrev lives : ℕ → Life ℕ ℕ
lives i = record { node = λ round. broken; ticks = 2500 ∷ []; late = tick ∷ [] }

status_page-load_example :
    page_load lives 0 status_page ≤ 65 * (1 + 3000 / 1000) + 20 * (1 + 3000 / 2500)
status_page-load_example = status_page-load lives 3000 (
  (omega arith, omega arith),
  (
    (omega arith, omega arith),
    (
      (omega arith, omega arith),
      (
        (omega arith, omega arith),
        (
          (omega arith, omega arith),
          (
            (omega arith, omega arith),
            ((omega arith, omega arith), ((omega arith, omega arith), tt)),
          ),
        ),
      ),
    ),
  ),
)

abbrev heap : RuntimeStats
heap = record {
  alloc = whole 4096;
  total_alloc = whole 8192;
  heap_alloc = whole 4096;
  heap_sys = whole 65536;
  heap_objects = whole 12;
  num_gc = whole 3;
}

finite : (n : ℕ) → n < significands → IsFinite (whole n)
finite n h = IsWithin-IsDouble n h (whole n) (omega arith)

replies_shown :
    Shows (groups_rows none)
    × Shows (deals_rows none)
    × Shows (retr_rows none)
    × ((mul (whole 2) (of_ℕ 100) ≡ inf false) ⊎ Shows (runtime_rows (some heap) (whole 2)))
replies_shown = replies-Shows none none none (some heap) (whole 2) tt tt tt (
  finite 4096 (omega arith),
  (
    finite 8192 (omega arith),
    (
      finite 4096 (omega arith),
      (finite 65536 (omega arith), (finite 12 (omega arith), (finite 3 (omega arith), tt))),
    ),
  ),
)
