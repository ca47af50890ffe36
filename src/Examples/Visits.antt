-- ===== src/Examples/Visits.antt =====
-- The page of a provider whose address changes to another one.
use ribs.Base.{ℕ, ◌+◌, ◌≡◌, ◌⊎◌, none, some, false, List, [], ◌∷◌, All, codes, length}
use ribs.Number.Defs.{Number}
use ribs.Number.Exact.{whole}
use ribs.ProviderPage.Page.{ProviderInfo, provider_number}
use ribs.ProviderPage.Mounted.{mount, Event, tick, answered, visit, run}
use ribs.ProviderPage.Visits.{last_visit, ticks, visits-first}

-- A node whose answers have the number that was asked for as their price.
abbrev node : ℕ → Number → ProviderInfo
node time n = record {
  meta = record {
    ping_ok = false;
    boost_deals = false;
    booster_http = false;
    booster_bitswap = false;
    ask_price = n;
    ask_verified_price = whole 0;
    ask_min_piece_size = whole 1024;
    ask_max_piece_size = whole 4096;
    indexed_success = whole 0;
    indexed_fail = whole 0;
    deal_started = whole 0;
    deal_success = whole 0;
    deal_fail = whole 0;
    deal_rejected = whole 0;
    retr_probe_success = whole 0;
    retr_probe_fail = whole 0;
    retr_probe_blocks = whole 0;
    retr_probe_bytes = whole 0;
  };
  recent_deals = none;
}

abbrev next_provider : List Event
next_provider = answered 0 1 ∷ visit (codes "f02000") ∷ tick ∷ answered 0 2 ∷ []

visits-first_example :
    let p = run node (mount (codes "f01000")) next_provider in
    All (λ n. n ≡ provider_number (codes "f01000")) p.asked
    × (length p.asked ≡ 1 + ticks next_provider)
    × ((p.state.provider ≡ none)
        ⊎ ((time : ℕ) × (p.state.provider ≡ some (node time (provider_number (codes "f01000"))))))
    × (p.provider_id ≡ last_visit (codes "f01000") next_provider)
visits-first_example = visits-first node (codes "f01000") next_provider
