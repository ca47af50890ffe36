-- ===== src/Examples/Routes.antt =====
-- The links of the app through a router that takes the first route that fits.
use mathlib.Core.Option
use ribs.Base.{
  ◌≡◌, refl, true, false, Option, none, some, List, [], ◌∷◌, map, All, arith, Text, codes,
}
use ribs.Number.Exact.{whole}
use ribs.Groups.Deals.{DealInfo}
use ribs.Groups.Rows.{deal_provider_link}
use ribs.Groups.Views.{group_link}
use ribs.GroupPage.Page.{group_key_of}
use ribs.Providers.Page.{Provider}
use ribs.Providers.Rows.{provider_link}
use ribs.ProviderPage.Page.{provider_number}
use ribs.Root.Frame.{format_path, nav_items}
use ribs.Root.Routes.{
  status, groups, group, providers, provider, content, repair, Params, Match, Route, Router, param,
  routes, candidates, same_word, IsPlain, IsBare,
}
use ribs.Root.Links.{nav_items-open, group_link-opens, provider_link-opens}

abbrev pub first : List Match → Option Match
first [] = none
first (m ∷ ms) = some m

abbrev pub first_match : List Route → Text → Option Match
first_match rs location = first (candidates rs location)

pub first_match-only :
    (rs : List Route) (location : Text) (m : Match)
    → All IsPlain rs
    → IsBare location
    → candidates rs location ≡ m ∷ []
    → first_match rs location ≡ some m
first_match-only rs location m plain free e = rw e refl

abbrev pub router : Router
router = record { match = first_match; only = first_match-only }

beside :
    (map (λ i. router.match routes i.0) nav_items
      ≡ map (λ e. some (e, [])) (status ∷ groups ∷ providers ∷ content ∷ repair ∷ []))
    × All (λ i. same_word (format_path i.0) i.1 ≡ true) nav_items
beside = nav_items-open router

group_link-opens_example :
    (ps : Params) × (router.match routes (group_link 42) ≡ some (group, ps))
    × (Option.map group_key_of (param (codes "groupKey") ps) ≡ some (whole 42))
group_link-opens_example = group_link-opens router 42 (omega arith)

-- A provider and a deal with it.
abbrev listed : Provider
listed = record {
  id = whole 1234;
  ask_min_piece_size = whole 1024;
  ask_max_piece_size = whole 4096;
  ask_price = whole 5;
  ask_verified_price = whole 0;
  booster_http = true;
  booster_bitswap = false;
  most_recent_deal_start = whole 1700000000;
  deal_started = whole 12;
  deal_rejected = whole 3;
  deal_fail = whole 1;
  deal_success = whole 8;
  retriev_deals = whole 5;
  unretriev_deals = whole 2;
}

abbrev pub deal : DealInfo
deal = record {
  uuid = codes "u";
  provider = 1234;
  start_epoch = 3000000;
  end_epoch = 4000000;
  tx_size = 0;
  deal_id = 1;
  pub_cid = [];
  sealed = true;
  failed = false;
  bytes_recv = 0;
  status = codes "Accepted";
  seal_status = [];
  error = [];
  retr_success = 0;
  retr_fail = 0;
  no_recent_success = false;
}

provider_link-opens_example :
    (deal_provider_link deal ≡ provider_link listed)
    × ((ps : Params) × (router.match routes (provider_link listed) ≡ some (provider, ps))
        × (Option.map provider_number (param (codes "providerID") ps) ≡ some listed.id))
provider_link-opens_example = provider_link-opens router listed deal (omega arith) refl
