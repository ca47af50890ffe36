-- ===== src/Status/Rates.antt =====
-- What the polled tiles show after any sequence of replies and errors.
use ribs.Base.{◌≡◌, refl, ap, Option, none, some, List, [], ◌∷◌, map}
use ribs.Number.Defs.{Number, of_ℕ, round}
use ribs.Status.Meter.{
  meter, polls, TopIndexStats, TopIndexTile, top_index_start, top_index_reply, IoCounters, IoTile,
  io_start, io_reply, StagingCounters, StagingStats, StagingTile, staging_start, staging_reply,
}

-- The replies among the polls.
abbrev pub answered {ℓ} : {A : Type ℓ} → List (Option A) → List A
answered [] = []
answered (none ∷ rs) = answered rs
answered (some r ∷ rs) = r ∷ answered rs

-- The average of the differences of a counter's successive values, from a first value on.
abbrev pub smoothed : Number → Number → List Number → Number
smoothed before ema [] = ema
smoothed before ema (n ∷ ns) = smoothed n (meter n before ema) ns

-- The average of a counter's values since the tile was mounted.
abbrev pub rate : List Number → Number
rate [] = of_ℕ 0
rate (n ∷ ns) = smoothed n (of_ℕ 0) ns

abbrev pub last_from {ℓ} : {A : Type ℓ} → A → List A → A
last_from a [] = a
last_from a (x ∷ xs) = last_from x xs

abbrev pub last_of {ℓ} : {A : Type ℓ} → List A → Option A
last_of [] = none
last_of (x ∷ xs) = some (last_from x xs)

abbrev pub reads : List TopIndexStats → List Number
reads = map (λ r. r.reads)

abbrev pub writes : List TopIndexStats → List Number
writes = map (λ r. r.writes)

-- A tile that has had a reply `r`, with averages `e` and `f`, and then polls.
abbrev top_index_after : TopIndexStats → Number → Number → TopIndexTile
top_index_after r e f = record {
  index_stats = some (record { stats = r; read_rate = round e; write_rate = round f });
  prev_stats = some (r.reads, r.writes);
  read_ema = e;
  write_ema = f;
}

top_index-later :
    (rs : List (Option TopIndexStats)) (r : TopIndexStats) (e f : Number)
    → polls top_index_reply (top_index_after r e f) rs
      ≡ top_index_after
          (last_from r (answered rs))
          (smoothed r.reads e (reads (answered rs)))
          (smoothed r.writes f (writes (answered rs)))
unfolding polls top_index_reply
top_index-later [] r e f = refl
top_index-later (none ∷ rs) r e f = top_index-later rs r e f
top_index-later (some q ∷ rs) r e f =
    top_index-later rs q (meter q.reads r.reads e) (meter q.writes r.writes f)

-- After the polls `rs` the tile of the top index shows the last reply with the rounded averages of
-- all differences between successive replies; errors in between leave no trace. Before the first
-- reply it shows nothing.
pub polls-top_index :
    (rs : List (Option TopIndexStats))
    → (polls top_index_reply top_index_start rs).index_stats ≡ elim (answered rs) [
      | [] ↦ none
      | q ∷ qs ↦ some (record {
        stats = last_from q qs;
        read_rate = round (rate (reads (q ∷ qs)));
        write_rate = round (rate (writes (q ∷ qs)));
      })
    ]
unfolding polls top_index_reply
polls-top_index [] = refl
polls-top_index (none ∷ rs) = polls-top_index rs
polls-top_index (some q ∷ rs) =
    ap (λ (s : TopIndexTile). s.index_stats) (top_index-later rs q (of_ℕ 0) (of_ℕ 0))

abbrev io_fields :
    (Number → Number → List Number → Number)
    → IoCounters
    → IoCounters
    → List IoCounters
    → IoCounters
io_fields f r e qs = record {
  read_blocks = f r.read_blocks e.read_blocks (map (λ q. q.read_blocks) qs);
  write_blocks = f r.write_blocks e.write_blocks (map (λ q. q.write_blocks) qs);
  read_bytes = f r.read_bytes e.read_bytes (map (λ q. q.read_bytes) qs);
  write_bytes = f r.write_bytes e.write_bytes (map (λ q. q.write_bytes) qs);
}

abbrev pub io_rounded : IoCounters → IoCounters
io_rounded e = record {
  read_blocks = round e.read_blocks;
  write_blocks = round e.write_blocks;
  read_bytes = round e.read_bytes;
  write_bytes = round e.write_bytes;
}

-- The averages of the four counters over the replies, each from its own differences.
abbrev pub io_rates : List IoCounters → IoCounters
io_rates qs = record {
  read_blocks = rate (map (λ q. q.read_blocks) qs);
  write_blocks = rate (map (λ q. q.write_blocks) qs);
  read_bytes = rate (map (λ q. q.read_bytes) qs);
  write_bytes = rate (map (λ q. q.write_bytes) qs);
}

abbrev io_after : IoCounters → IoCounters → IoTile
io_after r e = record { group_io_stats = some (r, io_rounded e); prev_stats = some r; emas = e }

io-later :
    (rs : List (Option IoCounters)) (r e : IoCounters)
    → polls io_reply (io_after r e) rs
      ≡ io_after (last_from r (answered rs)) (io_fields smoothed r e (answered rs))
unfolding polls io_reply
io-later [] r e = refl
io-later (none ∷ rs) r e = io-later rs r e
io-later (some q ∷ rs) r e = io-later rs q (record {
  read_blocks = meter q.read_blocks r.read_blocks e.read_blocks;
  write_blocks = meter q.write_blocks r.write_blocks e.write_blocks;
  read_bytes = meter q.read_bytes r.read_bytes e.read_bytes;
  write_bytes = meter q.write_bytes r.write_bytes e.write_bytes;
})

-- After the polls `rs` the tile of the group I/O shows the last reply, and beside each of its four
-- counters the rounded average of that counter's own differences between successive replies.
pub polls-io :
    (rs : List (Option IoCounters))
    → (polls io_reply io_start rs).group_io_stats ≡ elim (answered rs) [
      | [] ↦ none
      | q ∷ qs ↦ some (last_from q qs, io_rounded (io_rates (q ∷ qs)))
    ]
unfolding polls io_reply
polls-io [] = refl
polls-io (none ∷ rs) = polls-io rs
polls-io (some q ∷ rs) = ap (λ (s : IoTile). s.group_io_stats) (io-later rs q io_start.emas)

abbrev staging_fields :
    (Number → Number → List Number → Number)
    → StagingCounters
    → StagingCounters
    → List StagingStats
    → StagingCounters
staging_fields f r e qs = record {
  read_reqs = f r.read_reqs e.read_reqs (map (λ q. q.counters.read_reqs) qs);
  read_bytes = f r.read_bytes e.read_bytes (map (λ q. q.counters.read_bytes) qs);
  upload_bytes = f r.upload_bytes e.upload_bytes (map (λ q. q.counters.upload_bytes) qs);
  redirects = f r.redirects e.redirects (map (λ q. q.counters.redirects) qs);
}

abbrev pub staging_rates : List StagingStats → StagingCounters
staging_rates qs = record {
  read_reqs = rate (map (λ q. q.counters.read_reqs) qs);
  read_bytes = rate (map (λ q. q.counters.read_bytes) qs);
  upload_bytes = rate (map (λ q. q.counters.upload_bytes) qs);
  redirects = rate (map (λ q. q.counters.redirects) qs);
}

abbrev staging_after : StagingStats → StagingCounters → StagingTile
staging_after r e = record { staging_stats = some r; prev_stats = some r.counters; emas = e }

staging-later :
    (rs : List (Option StagingStats)) (r : StagingStats) (e : StagingCounters)
    → polls staging_reply (staging_after r e) rs
      ≡ staging_after
          (last_from r (answered rs))
          (staging_fields smoothed r.counters e (answered rs))
unfolding polls staging_reply
staging-later [] r e = refl
staging-later (none ∷ rs) r e = staging-later rs r e
staging-later (some q ∷ rs) r e = staging-later rs q (record {
  read_reqs = meter q.counters.read_reqs r.counters.read_reqs e.read_reqs;
  read_bytes = meter q.counters.read_bytes r.counters.read_bytes e.read_bytes;
  upload_bytes = meter q.counters.upload_bytes r.counters.upload_bytes e.upload_bytes;
  redirects = meter q.counters.redirects r.counters.redirects e.redirects;
})

-- After the polls `rs` the staging tile holds the last reply, if there was one, and for each of its
-- four counters the average of that counter's own differences between successive replies.
pub polls-staging :
    (rs : List (Option StagingStats))
    → let s = polls staging_reply staging_start rs in
      (s.staging_stats ≡ last_of (answered rs)) × (s.emas ≡ staging_rates (answered rs))
unfolding polls staging_reply
polls-staging [] = (refl, refl)
polls-staging (none ∷ rs) = polls-staging rs
polls-staging (some p ∷ rs) =
    let later = staging-later rs p staging_start.emas in
    (ap (λ (s : StagingTile). s.staging_stats) later, ap (λ (s : StagingTile). s.emas) later)
