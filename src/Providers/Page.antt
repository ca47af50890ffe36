-- ===== src/Providers/Page.antt =====
-- `Providers` of routes/Providers.js: its list and the percentages in its rows.
use mathlib.Core.List.{reverse}
use ribs.Rpc.Retry.{Answer, Outcome, returned, thrown, undefined, call}
use ribs.Base.{ℕ, Text, codes, [], Bool, Option, none, some, List, if◌then◌else◌}
use ribs.Number.Defs.{Number, of_ℕ, equal, mul, div, add, round}

-- The fields of a provider that the page shows.
pub record Provider : Type 0 where
  pub id : Number
  pub ask_min_piece_size : Number
  pub ask_max_piece_size : Number
  pub ask_price : Number
  pub ask_verified_price : Number
  pub booster_http : Bool
  pub booster_bitswap : Bool
  pub most_recent_deal_start : Number
  pub deal_started : Number
  pub deal_rejected : Number
  pub deal_fail : Number
  pub deal_success : Number
  pub retriev_deals : Number
  pub unretriev_deals : Number

-- `fetchProviders` once its call has ended: the reply from the last to the first. An error, also that of
-- `reverse` on null or undefined, leaves the list as it is.
unfoldable pub fetch_providers :
    {E : Type 0} → Outcome (Option (List Provider)) E → List Provider → List Provider
fetch_providers (returned none) providers = providers
fetch_providers (returned (some provider_data)) providers = reverse provider_data
fetch_providers (thrown error) providers = providers
fetch_providers undefined providers = providers

-- `fetchProviders` against a node, with the delays that it waits for.
unfoldable pub refresh :
    {E : Type 0}
    → (ℕ → Text → List ℕ → Answer (Option (List Provider)) E)
    → List Provider
    → List Provider × List ℕ
refresh server providers =
    let r = call server (codes "ReachableProviders") [] in (fetch_providers r.0 providers, r.1)

-- `calculateDealPercentage`
unfoldable pub calculate_deal_percentage : Number → Number → Number
calculate_deal_percentage part total =
    if equal total (of_ℕ 0) then of_ℕ 0 else round (mul (div part total) (of_ℕ 100))

-- The widths of the bars in a row, in percent.
pub record Widths : Type 0 where
  pub rejected : Number
  pub fail : Number
  pub success : Number
  pub retriev : Number

unfoldable pub widths : Provider → Widths
widths p = record {
  rejected = calculate_deal_percentage p.deal_rejected p.deal_started;
  fail = calculate_deal_percentage p.deal_fail p.deal_started;
  success = calculate_deal_percentage p.deal_success p.deal_started;
  retriev = calculate_deal_percentage p.retriev_deals (add p.unretriev_deals p.retriev_deals);
}
