-- ===== src/Status/Meter.antt =====
-- The tiles of routes/Status.js that poll counters and show their smoothed rates. A reply or an error
-- arrives as one step: the code behind the last `await` runs without interruption.
use ribs.Base.{Option, none, some, List, [], ◌∷◌}
use ribs.Number.Defs.{Number, of_ℕ, sub, div, round}
use ribs.Fmt.Units.{calc_ema}

abbrev pub smoothing_factor : Number
smoothing_factor = div (of_ℕ 1) (of_ℕ 10)

-- One smoothed rate: the new average from the counter's old and new value.
abbrev pub meter : Number → Number → Number → Number
meter now before ema = calc_ema (sub now before) ema smoothing_factor

-- A component under a sequence of polls; `none` is an error, which the handler only logs.
unfoldable pub polls {ℓ κ} : {S : Type ℓ} {A : Type κ} → (S → A → S) → S → List (Option A) → S
polls on_reply s [] = s
polls on_reply s (none ∷ rs) = polls on_reply s rs
polls on_reply s (some r ∷ rs) = polls on_reply (on_reply s r) rs

-- `TopIndexTile`
pub record TopIndexStats : Type 0 where
  pub reads : Number
  pub writes : Number
  pub entries : Number

pub record TopIndexShown : Type 0 where
  pub stats : TopIndexStats
  pub read_rate : Number
  pub write_rate : Number

-- `prev_stats` is none while `Reads` and `Writes` of the reference are undefined.
pub record TopIndexTile : Type 0 where
  pub index_stats : Option TopIndexShown
  pub prev_stats : Option (Number × Number)
  pub read_ema : Number
  pub write_ema : Number

abbrev pub top_index_start : TopIndexTile
top_index_start = record {
  index_stats = none;
  prev_stats = none;
  read_ema = of_ℕ 0;
  write_ema = of_ℕ 0;
}

unfoldable pub top_index_reply : TopIndexTile → TopIndexStats → TopIndexTile
top_index_reply s r =
    let read_ema : Number = elim s.prev_stats [
      | none ↦ s.read_ema
      | some p ↦ meter r.reads p.0 s.read_ema
    ] in
    let write_ema : Number = elim s.prev_stats [
      | none ↦ s.write_ema
      | some p ↦ meter r.writes p.1 s.write_ema
    ] in
    record {
      index_stats =
          some (record { stats = r; read_rate = round read_ema; write_rate = round write_ema });
      prev_stats = some (r.reads, r.writes);
      read_ema = read_ema;
      write_ema = write_ema;
    }

-- `IoStats`
pub record IoCounters : Type 0 where
  pub read_blocks : Number
  pub write_blocks : Number
  pub read_bytes : Number
  pub write_bytes : Number

pub record IoTile : Type 0 where
  pub group_io_stats : Option (IoCounters × IoCounters)
  pub prev_stats : Option IoCounters
  pub emas : IoCounters

abbrev pub io_start : IoTile
io_start = record {
  group_io_stats = none;
  prev_stats = none;
  emas = record {
    read_blocks = of_ℕ 0;
    write_blocks = of_ℕ 0;
    read_bytes = of_ℕ 0;
    write_bytes = of_ℕ 0;
  };
}

-- The counters of the reply, with the rounded rates beside them.
unfoldable pub io_reply : IoTile → IoCounters → IoTile
io_reply s r =
    let emas : IoCounters = elim s.prev_stats [
      | none ↦ s.emas
      | some p ↦ record {
        read_blocks = meter r.read_blocks p.read_blocks s.emas.read_blocks;
        write_blocks = meter r.write_blocks p.write_blocks s.emas.write_blocks;
        read_bytes = meter r.read_bytes p.read_bytes s.emas.read_bytes;
        write_bytes = meter r.write_bytes p.write_bytes s.emas.write_bytes;
      }
    ] in
    record {
      group_io_stats = some (
        r,
        record {
          read_blocks = round emas.read_blocks;
          write_blocks = round emas.write_blocks;
          read_bytes = round emas.read_bytes;
          write_bytes = round emas.write_bytes;
        },
      );
      prev_stats = some r;
      emas = emas;
    }

-- `StagingStats`
pub record StagingCounters : Type 0 where
  pub read_reqs : Number
  pub read_bytes : Number
  pub upload_bytes : Number
  pub redirects : Number

-- The reply to "StagingStats".
pub record StagingStats : Type 0 where
  pub counters : StagingCounters
  pub upload_started : Number
  pub upload_done : Number
  pub upload_err : Number

pub record StagingTile : Type 0 where
  pub staging_stats : Option StagingStats
  pub prev_stats : Option StagingCounters
  pub emas : StagingCounters

abbrev pub staging_start : StagingTile
staging_start = record {
  staging_stats = none;
  prev_stats = none;
  emas = record {
    read_reqs = of_ℕ 0;
    read_bytes = of_ℕ 0;
    upload_bytes = of_ℕ 0;
    redirects = of_ℕ 0;
  };
}

unfoldable pub staging_reply : StagingTile → StagingStats → StagingTile
staging_reply s r =
    let emas : StagingCounters = elim s.prev_stats [
      | none ↦ s.emas
      | some p ↦ record {
        read_reqs = meter r.counters.read_reqs p.read_reqs s.emas.read_reqs;
        read_bytes = meter r.counters.read_bytes p.read_bytes s.emas.read_bytes;
        upload_bytes = meter r.counters.upload_bytes p.upload_bytes s.emas.upload_bytes;
        redirects = meter r.counters.redirects p.redirects s.emas.redirects;
      }
    ] in
    record { staging_stats = some r; prev_stats = some r.counters; emas = emas }
