-- ===== src/Status/Replies.antt =====
-- The tables of routes/Status.js that show a reply as it is: whether each of their rows has a text.
use ribs.Base.{◌≡◌, ◌⊎◌, inl, inr, Option, none, some, false, List, [], ◌∷◌, All}
use ribs.Number.Defs.{Number, nan, inf, of_ℕ, mul}
use ribs.Number.Bounds.{mul-IsDouble}
use ribs.Fmt.Units.{format_num}
use ribs.Fmt.Loops.{
  Returns, Returns-map, IsFinite, format_num-Returns, format_bytes_binary-Returns,
  formatters-Return,
}
use ribs.Status.Cells.{bytes, num}
use ribs.Status.Rendering.{Shows}
use ribs.Status.StorageTiles.{GroupStats, groups_rows}
use ribs.Status.DealTiles.{DealSummary, deals_rows}
use ribs.Status.RetrievalTiles.{RetrStats, retr_rows}
use ribs.Status.InternalTiles.{RuntimeStats, runtime_rows}

-- A reply, if there is one yet, has numbers that are finite.
abbrev pub AreFinite : {A : Type 0} → (A → List Number) → Option A → Type 0
AreFinite numbers none = Unit
AreFinite numbers (some r) = All IsFinite (numbers r)

abbrev pub of_groups : GroupStats → List Number
of_groups r = r.total_data_size ∷ r.non_offloaded_data_size ∷ r.offloaded_data_size ∷ []

abbrev pub of_deals : DealSummary → List Number
of_deals r = r.total_data_size ∷ r.total_deal_size ∷ r.stored_data_size ∷ r.stored_deal_size ∷ []

abbrev pub of_retrievals : RetrStats → List Number
of_retrievals r =
    r.success ∷ r.bytes ∷ r.fail ∷ r.cache_hit ∷ r.cache_miss ∷ r.active ∷ r.http_tries
    ∷ r.http_success ∷ r.http_bytes ∷ []

abbrev pub of_runtime : RuntimeStats → List Number
of_runtime r = r.alloc ∷ r.total_alloc ∷ r.heap_alloc ∷ r.heap_sys ∷ r.heap_objects ∷ r.num_gc ∷ []

bytes-Returns : (x : Number) → IsFinite x → Returns (bytes (some x))
bytes-Returns x (h, ne) = (format_bytes_binary-Returns x h).0

num-Returns : (x : Number) → IsFinite x → Returns (num (some x))
num-Returns x (h, ne) = format_num-Returns x 0 h ne

no_bytes : Returns (bytes none)
no_bytes = (format_bytes_binary-Returns nan tt).0

no_num : Returns (num none)
no_num = format_num-Returns nan 0 tt (λ e. cc)

groups-Shows : (s : Option GroupStats) → AreFinite of_groups s → Shows (groups_rows s)
unfolding groups_rows
groups-Shows none h = (tt, (no_bytes, (no_bytes, (no_bytes, (tt, (tt, tt))))))
groups-Shows (some r) (a, (b, (c, z))) =
    (tt, (bytes-Returns _ a, (bytes-Returns _ b, (bytes-Returns _ c, (tt, (tt, tt))))))

deals-Shows : (s : Option DealSummary) → AreFinite of_deals s → Shows (deals_rows s)
unfolding deals_rows
deals-Shows none h = (no_bytes, (no_bytes, (no_bytes, (no_bytes, (tt, (tt, (tt, tt)))))))
deals-Shows (some r) (a, (b, (c, (d, z)))) = (
  bytes-Returns _ a,
  (bytes-Returns _ b, (bytes-Returns _ c, (bytes-Returns _ d, (tt, (tt, (tt, tt)))))),
)

retr-Shows : (s : Option RetrStats) → AreFinite of_retrievals s → Shows (retr_rows s)
unfolding retr_rows
retr-Shows none h =
    (no_num, (no_bytes, (no_num, (no_num, (no_num, (no_num, (no_num, (no_num, (no_bytes, tt)))))))))
retr-Shows (some r) (a, (b, (c, (d, (e, (f, (g, (h, (i, z))))))))) = (
  num-Returns _ a,
  (
    bytes-Returns _ b,
    (
      num-Returns _ c,
      (
        num-Returns _ d,
        (
          num-Returns _ e,
          (num-Returns _ f, (num-Returns _ g, (num-Returns _ h, (bytes-Returns _ i, tt)))),
        ),
      ),
    ),
  ),
)

runtime-Shows :
    (s : Option RuntimeStats) (ema : Number)
    → AreFinite of_runtime s
    → Returns (format_num (mul ema (of_ℕ 100)) 3)
    → Shows (runtime_rows s ema)
unfolding runtime_rows
runtime-Shows none ema h p =
    (no_bytes, (no_bytes, (no_bytes, (no_bytes, (no_num, (no_num, (Returns-map _ _ p, tt)))))))
runtime-Shows (some r) ema (a, (b, (c, (d, (e, (f, z)))))) p = (
  bytes-Returns _ a,
  (
    bytes-Returns _ b,
    (
      bytes-Returns _ c,
      (bytes-Returns _ d, (num-Returns _ e, (num-Returns _ f, (Returns-map _ _ p, tt)))),
    ),
  ),
)

-- Before the first reply and for every reply with finite numbers: each row of the tables of groups,
-- deals and retrievals has a text, and so has each row of the table of the runtime, unless the share
-- of time that the collector pauses, in percent, is +Infinity.
pub replies-Shows :
    (groups : Option GroupStats) (deals : Option DealSummary) (retrievals : Option RetrStats)
    (runtime : Option RuntimeStats) (ema : Number)
    → AreFinite of_groups groups
    → AreFinite of_deals deals
    → AreFinite of_retrievals retrievals
    → AreFinite of_runtime runtime
    → Shows (groups_rows groups)
      × Shows (deals_rows deals)
      × Shows (retr_rows retrievals)
      × ((mul ema (of_ℕ 100) ≡ inf false) ⊎ Shows (runtime_rows runtime ema))
replies-Shows groups deals retrievals runtime ema a b c d = (
  groups-Shows groups a,
  deals-Shows deals b,
  retr-Shows retrievals c,
  elim (formatters-Return (mul ema (of_ℕ 100)) 3 (mul-IsDouble ema (of_ℕ 100))).2 [
    | inl e ↦ inl e
    | inr p ↦ inr (runtime-Shows runtime ema d p)
  ],
)
