-- ===== src/Status/StorageTiles.antt =====
-- The tables of `GroupsTile`, `IoStats` and `TopIndexTile` (routes/Status.js).
use ribs.Base.{Option, none, some, List, [], ◌∷◌, codes}
use ribs.Number.Defs.{Number, of_ℕ}
use ribs.Status.Cells.{Row, plain, followed_by, num, num6, bytes, field}
use ribs.Status.Meter.{TopIndexTile, IoTile}

-- The reply to "GetGroupStats".
pub record GroupStats : Type 0 where
  pub group_count : Number
  pub total_data_size : Number
  pub non_offloaded_data_size : Number
  pub offloaded_data_size : Number
  pub open_groups : Number
  pub open_writable : Number

-- `fetchStatus` of `GroupsTile`: an error leaves the last reply.
unfoldable pub fetch_group_stats : Option GroupStats → Option GroupStats → Option GroupStats
fetch_group_stats none group_stats = group_stats
fetch_group_stats (some reply) group_stats = some reply

-- `x ?? 0`
abbrev pub or_default : Option Number → Option Number
or_default none = some (of_ℕ 0)
or_default (some x) = some x

unfoldable pub groups_rows : Option GroupStats → List Row
groups_rows s =
    (codes "Block Groups:", plain (field (λ r. r.group_count) s))
    ∷ (codes "Total data size:", bytes (field (λ r. r.total_data_size) s))
    ∷ (codes "Local size:", bytes (field (λ r. r.non_offloaded_data_size) s))
    ∷ (codes "Offloaded size:", bytes (field (λ r. r.offloaded_data_size) s))
    ∷ (codes "Open (RO):", plain (or_default (field (λ r. r.open_groups) s)))
    ∷ (codes "Open (RW):", plain (or_default (field (λ r. r.open_writable) s)))
    ∷ []

unfoldable pub io_rows : IoTile → List Row
io_rows s =
    (
      codes "Read Rate:",
      followed_by (codes " Blk/s") (num (field (λ r. r.1.read_blocks) s.group_io_stats)),
    )
    ∷ (
      codes "Read Bytes:",
      followed_by (codes "/s") (bytes (field (λ r. r.1.read_bytes) s.group_io_stats)),
    )
    ∷ (
      codes "Write Rate:",
      followed_by (codes " Blk/s") (num (field (λ r. r.1.write_blocks) s.group_io_stats)),
    )
    ∷ (
      codes "Write Bytes:",
      followed_by (codes "/s") (bytes (field (λ r. r.1.write_bytes) s.group_io_stats)),
    )
    ∷ []

unfoldable pub top_index_rows : TopIndexTile → List Row
top_index_rows s =
    (codes "Entries:", num6 (field (λ r. r.stats.entries) s.index_stats))
    ∷ (
      codes "Read rate:",
      followed_by (codes "/s") (plain (field (λ r. r.read_rate) s.index_stats)),
    )
    ∷ (
      codes "Write rate:",
      followed_by (codes "/s") (plain (field (λ r. r.write_rate) s.index_stats)),
    )
    ∷ []
