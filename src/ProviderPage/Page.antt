-- ===== src/ProviderPage/Page.antt =====
-- The state of `Provider` (routes/Provider.js) and `fetchProvider`.
use ribs.Base.{Bool, Option, none, some, List, Text, drop}
use ribs.Number.Defs.{Number, of_ℕ}
use ribs.Number.Parse.{parse_int_text}

-- `provider.Meta` as the page shows it.
pub record ProviderMeta : Type 0 where
  pub ping_ok : Bool
  pub boost_deals : Bool
  pub booster_http : Bool
  pub booster_bitswap : Bool
  pub ask_price : Number
  pub ask_verified_price : Number
  pub ask_min_piece_size : Number
  pub ask_max_piece_size : Number
  pub indexed_success : Number
  pub indexed_fail : Number
  pub deal_started : Number
  pub deal_success : Number
  pub deal_fail : Number
  pub deal_rejected : Number
  pub retr_probe_success : Number
  pub retr_probe_fail : Number
  pub retr_probe_blocks : Number
  pub retr_probe_bytes : Number

-- An element of `provider.RecentDeals`.
pub record ProviderDeal : Type 0 where
  pub uuid : Text
  pub rejected : Bool
  pub failed : Bool
  pub sealed : Bool
  pub status : Text
  pub start_time : Number
  pub start_epoch : Number
  pub end_epoch : Number
  pub error : Text
  pub deal_id : Number
  pub bytes_recv : Number
  pub tx_size : Number
  pub pub_cid : Text

-- The reply to "ProviderInfo"; `RecentDeals` may be null.
pub record ProviderInfo : Type 0 where
  pub meta : ProviderMeta
  pub recent_deals : Option (List ProviderDeal)

pub record ProviderState : Type 0 where
  pub provider : Option ProviderInfo
  pub head_height : Number

abbrev pub provider_state : ProviderState
provider_state = record { provider = none; head_height = of_ℕ 0 }

-- The argument of "ProviderInfo", from `providerID`.
unfoldable pub provider_number : Text → Number
provider_number provider_id = parse_int_text (drop 2 provider_id)

-- `fetchProvider` under the replies to "ProviderInfo" and "ChainHead", none for an error: the second
-- call is made when the first one has been answered.
unfoldable pub fetch_provider : Option ProviderInfo → Option Number → ProviderState → ProviderState
fetch_provider none head s = s
fetch_provider (some info) none s = record s { provider = some info }
fetch_provider (some info) (some height) s = record { provider = some info; head_height = height }
