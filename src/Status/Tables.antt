-- ===== src/Status/Tables.antt =====
-- The rows of the tables of routes/Status.js that show rates.
use ribs.Base.{ℕ, ◌*◌, ◌<◌, Option, none, some, List, [], ◌∷◌, map, All, All-map, Text, arith}
use ribs.Number.Rounding.{significands}
use ribs.Number.Defs.{Number, round}
use ribs.Number.Bounds.{IsWithin, IsWithin-IsDouble}
use ribs.Fmt.Loops.{Returns, format_bytes_binary-Returns}
use ribs.Status.Cells.{num6}
use ribs.Status.Meter.{
  polls, StagingStats, staging_start, staging_reply, IoCounters, io_start, io_reply, TopIndexStats,
  TopIndexShown, top_index_start, top_index_reply,
}
use ribs.Status.Rates.{
  answered, rate, last_from, io_rates, io_rounded, polls-io, polls-top_index, reads, writes,
}
use ribs.Status.RetrievalTiles.{staging_rows}
use ribs.Status.StorageTiles.{io_rows, top_index_rows}
use ribs.Status.Rendering.{
  IsCount, IsReply, Shows, IsCount-IsWithin, last_from-All, rate-IsWithin, rate_row, bytes_row,
  num-Returns, bytes-Returns, followed_by-Returns, polls-Shows,
}

module _ (n : ℕ) (hn : 16 * n < significands) where
  -- The counters of the group I/O as whole numbers up to 8 n, and the entries of the top index.
  pub record IsIoReply (r : IoCounters) : Type 0 where
    pub read_blocks : IsCount (8 * n) r.read_blocks
    pub write_blocks : IsCount (8 * n) r.write_blocks
    pub read_bytes : IsCount (8 * n) r.read_bytes
    pub write_bytes : IsCount (8 * n) r.write_bytes

  abbrev pub IsIndexReply : TopIndexStats → Type 0
  IsIndexReply r = IsCount (8 * n) r.entries

  counter-IsWithin :
      (f : IoCounters → Number) (qs : List IoCounters)
      → ((r : IoCounters) → IsIoReply r → IsCount (8 * n) (f r))
      → All IsIoReply qs
      → IsWithin (16 * n) (rate (map f qs))
  counter-IsWithin f qs h a =
      rate-IsWithin n hn (map f qs) (All-map IsIoReply (IsCount (8 * n)) f qs h a)

  abbrev io_shown : List IoCounters → Option (IoCounters × IoCounters)
  io_shown rs = elim rs [
    | [] ↦ none
    | q ∷ qs ↦ some (last_from q qs, io_rounded (io_rates (q ∷ qs)))
  ]

  io_shown-Shows :
      (qs : List IoCounters)
      → All IsIoReply qs
      → Shows (io_rows (record io_start { group_io_stats = io_shown qs }))
  unfolding io_rows
  io_shown-Shows [] a =
      let blocks =
        λ (suffix : Text). followed_by-Returns n hn suffix _ (num-Returns n hn none tt) in
      let size =
        λ (suffix : Text). followed_by-Returns n hn suffix _ (bytes-Returns n hn none tt) in
      (blocks _, (size _, (blocks _, (size _, tt))))
  io_shown-Shows (q ∷ qs) a = (
    rate_row n hn _ _ (counter-IsWithin (λ r. r.read_blocks) (q ∷ qs) (λ r h. h.read_blocks) a),
    (
      bytes_row n hn _ _ (counter-IsWithin (λ r. r.read_bytes) (q ∷ qs) (λ r h. h.read_bytes) a),
      (
        rate_row n hn _ _
            (counter-IsWithin (λ r. r.write_blocks) (q ∷ qs) (λ r h. h.write_blocks) a),
        (
          bytes_row n hn _ _
              (counter-IsWithin (λ r. r.write_bytes) (q ∷ qs) (λ r h. h.write_bytes) a),
          tt,
        ),
      ),
    ),
  )

  io-Shows :
      (rs : List (Option IoCounters))
      → All IsIoReply (answered rs)
      → Shows (io_rows (polls io_reply io_start rs))
  unfolding io_rows
  io-Shows rs a = rw (polls-io rs) (io_shown-Shows (answered rs) a)

  entries-Returns : (x : Number) → IsCount (8 * n) x → Returns (num6 (some x))
  entries-Returns x h =
      (format_bytes_binary-Returns x
        (IsWithin-IsDouble (16 * n) hn x (IsCount-IsWithin (8 * n) (16 * n) x (omega arith) h)).0).1

  abbrev index_shown : List TopIndexStats → Option TopIndexShown
  index_shown rs = elim rs [
    | [] ↦ none
    | q ∷ qs ↦ some (record {
      stats = last_from q qs;
      read_rate = round (rate (reads (q ∷ qs)));
      write_rate = round (rate (writes (q ∷ qs)));
    })
  ]

  index_shown-Shows :
      (qs : List TopIndexStats)
      → All IsIndexReply qs
      → Shows (top_index_rows (record top_index_start { index_stats = index_shown qs }))
  unfolding top_index_rows
  index_shown-Shows [] a = ((format_bytes_binary-Returns _ tt).1, (tt, (tt, tt)))
  index_shown-Shows (q ∷ qs) (h, a) =
      (entries-Returns _ (last_from-All IsIndexReply q qs h a), (tt, (tt, tt)))

  top_index-Shows :
      (rs : List (Option TopIndexStats))
      → All IsIndexReply (answered rs)
      → Shows (top_index_rows (polls top_index_reply top_index_start rs))
  unfolding top_index_rows
  top_index-Shows rs a = rw (polls-top_index rs) (index_shown-Shows (answered rs) a)

  -- After any polls of the three tiles that show rates, errors in between, if the counters of the
  -- staging area and of the group I/O and the entries of the top index are whole numbers up to 8 n,
  -- with 16 n below 2 ^ 53: every row of their tables has a text, since no formatter loops for ever
  -- on a rate.
  pub tables-Shows :
      (staging : List (Option StagingStats)) (io : List (Option IoCounters))
      (index : List (Option TopIndexStats))
      → All (IsReply n hn) (answered staging)
      → All IsIoReply (answered io)
      → All IsIndexReply (answered index)
      → Shows (staging_rows (polls staging_reply staging_start staging))
        × Shows (io_rows (polls io_reply io_start io))
        × Shows (top_index_rows (polls top_index_reply top_index_start index))
  tables-Shows staging io index a b c =
      (polls-Shows n hn staging a, io-Shows io b, top_index-Shows index c)
