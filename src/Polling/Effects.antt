-- ===== src/Polling/Effects.antt =====
-- The effects of the pages in routes/ that call a function once and then at every tick of an interval,
-- until the component goes, and the calls of that function, one after another up to the first error.
-- The ticks come from the browser, and what the node answers is an argument.
use ribs.Base.{
  ℕ, zero, suc, ◌+◌, Bool, true, false, List, [], ◌∷◌, ◌++◌, Text, codes, length, if◌then◌else◌,
}
use ribs.Rpc.Retry.{Answer, returned, thrown, undefined, Run, call, call_fil}

-- A call by `RibsRPC.call` or by `RibsRPC.callFil`.
pub data Call : Type 0 where
  to_ribs : Text → Call
  to_fil : Text → Call

-- The calls of the function and the period in milliseconds.
pub record Effect : Type 0 where
  pub calls : List Call
  pub period : ℕ

abbrev pub groups_tile_effect : Effect
groups_tile_effect = record { calls = to_ribs (codes "GetGroupStats") ∷ []; period = 1000 }

abbrev pub top_index_effect : Effect
top_index_effect = record { calls = to_ribs (codes "TopIndexStats") ∷ []; period = 1000 }

abbrev pub io_stats_effect : Effect
io_stats_effect = record { calls = to_ribs (codes "GroupIOStats") ∷ []; period = 1000 }

abbrev pub staging_stats_effect : Effect
staging_stats_effect = record { calls = to_ribs (codes "StagingStats") ∷ []; period = 1000 }

abbrev pub p2p_nodes_effect : Effect
p2p_nodes_effect = record { calls = to_ribs (codes "P2PNodes") ∷ []; period = 2500 }

abbrev pub go_runtime_effect : Effect
go_runtime_effect = record { calls = to_ribs (codes "RuntimeStats") ∷ []; period = 2500 }

abbrev pub deal_counts_effect : Effect
deal_counts_effect = record {
  calls = to_ribs (codes "RetrievableDealCounts") ∷ to_ribs (codes "SealedDealCounts") ∷ [];
  period = 2500;
}

abbrev pub status_effect : Effect
status_effect = record {
  calls =
      to_ribs (codes "WalletInfo")
      ∷ to_ribs (codes "Groups")
      ∷ to_ribs (codes "CrawlState")
      ∷ to_ribs (codes "CarUploadStats")
      ∷ to_ribs (codes "ReachableProviders")
      ∷ to_ribs (codes "DealSummary")
      ∷ to_ribs (codes "RetrStats")
      ∷ to_ribs (codes "RetrChecker")
      ∷ to_ribs (codes "WorkerStats")
      ∷ [];
  period = 1000;
}

abbrev pub groups_effect : Effect
groups_effect = record {
  calls = to_ribs (codes "Groups") ∷ to_fil (codes "ChainHead") ∷ [];
  period = 15000;
}

abbrev pub provider_effect : Effect
provider_effect = record {
  calls = to_ribs (codes "ProviderInfo") ∷ to_fil (codes "ChainHead") ∷ [];
  period = 2500;
}

abbrev pub providers_effect : Effect
providers_effect = record { calls = to_ribs (codes "ReachableProviders") ∷ []; period = 5000 }

abbrev pub content_effect : Effect
content_effect = record { calls = to_fil (codes "ChainHead") ∷ []; period = 5000 }

abbrev pub repair_effect : Effect
repair_effect = record {
  calls = to_ribs (codes "RepairStats") ∷ to_ribs (codes "RepairQueue") ∷ [];
  period = 1000;
}

pub data Tile : Type 0 where
  groups_tile : Tile
  io_stats : Tile
  top_index_tile : Tile
  deals_tile : Tile
  deal_counts_chart : Tile
  providers_tile : Tile
  car_upload_stats_tile : Tile
  crawl_state_tile : Tile
  wallet_info_tile : Tile
  retr_stats : Tile
  staging_stats : Tile
  retr_checker_stats : Tile
  repair_retrievals : Tile
  p2p_nodes : Tile
  go_runtime_stats : Tile
  worker_stats : Tile

-- The sections of the status page with their tiles.
abbrev pub status_view : List (Text × List Tile)
status_view =
    (codes "Storage", groups_tile ∷ io_stats ∷ top_index_tile ∷ [])
    ∷ (
      codes "DSN",
      deals_tile ∷ deal_counts_chart ∷ providers_tile ∷ car_upload_stats_tile ∷ crawl_state_tile
          ∷ wallet_info_tile ∷ [],
    )
    ∷ (codes "External Storage", retr_stats ∷ staging_stats ∷ retr_checker_stats ∷ [])
    ∷ (codes "Replication Repair", repair_retrievals ∷ [])
    ∷ (codes "Internals", p2p_nodes ∷ go_runtime_stats ∷ worker_stats ∷ [])
    ∷ []

-- The effect with which a tile asks the node; the others show what the page hands them.
abbrev pub tile_effects : Tile → List Effect
tile_effects groups_tile = groups_tile_effect ∷ []
tile_effects io_stats = io_stats_effect ∷ []
tile_effects top_index_tile = top_index_effect ∷ []
tile_effects deals_tile = []
tile_effects deal_counts_chart = deal_counts_effect ∷ []
tile_effects providers_tile = []
tile_effects car_upload_stats_tile = []
tile_effects crawl_state_tile = []
tile_effects wallet_info_tile = []
tile_effects retr_stats = []
tile_effects staging_stats = staging_stats_effect ∷ []
tile_effects retr_checker_stats = []
tile_effects repair_retrievals = []
tile_effects p2p_nodes = p2p_nodes_effect ∷ []
tile_effects go_runtime_stats = go_runtime_effect ∷ []
tile_effects worker_stats = []

abbrev pub tiles_effects : List Tile → List Effect
tiles_effects [] = []
tiles_effects (t ∷ ts) = tile_effects t ++ tiles_effects ts

abbrev pub sections_effects : List (Text × List Tile) → List Effect
sections_effects [] = []
sections_effects ((heading, tiles) ∷ sections) = tiles_effects tiles ++ sections_effects sections

-- The effects of the status page: those of its tiles, and its own behind them.
abbrev pub status_page : List Effect
status_page = sections_effects status_view ++ status_effect ∷ []

-- A mounted effect: whether its interval is set, and how often its function has been called.
pub record Poller : Type 0 where
  pub interval_set : Bool
  pub rounds : ℕ

pub data Event : Type 0 where
  tick : Event
  unmount : Event

unfoldable pub mount : Poller
mount = record { interval_set = true; rounds = 1 }

unfoldable pub step : Poller → Event → Poller
step p tick = if p.interval_set then record p { rounds = suc p.rounds } else p
step p unmount = record p { interval_set = false }

unfoldable pub run : Poller → List Event → Poller
run p [] = p
run p (e ∷ es) = run (step p e) es

-- A node: the answer to an attempt at a method, with its prefix.
abbrev pub Node : Type 0 → Type 0 → Type 0
Node A E = ℕ → Text → Unit {0} → Answer A E

module _ {A E : Type 0} where
  abbrev pub request : Node A E → Call → Run A E
  request node (to_ribs method) = call node method tt
  request node (to_fil method) = call_fil node method tt

  -- The attempts that one run of the function makes.
  unfoldable pub attempts : Node A E → List Call → ℕ
  attempts node [] = 0
  attempts node (c ∷ cs) =
      let rest = attempts node cs in
      let r = request node c in
      suc (length r.1)
      + (elim r.0 as (λ o. ℕ) [ returned a ↦ rest | thrown e ↦ 0 | undefined ↦ rest ])

  -- The attempts of the first `rounds` runs, in each of which the node may answer differently.
  unfoldable pub load : (ℕ → Node A E) → List Call → ℕ → ℕ
  load node cs zero = 0
  load node cs (suc rounds) = load node cs rounds + attempts (node rounds) cs
