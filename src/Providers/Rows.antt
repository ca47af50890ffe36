-- ===== src/Providers/Rows.antt =====
-- The table of routes/Providers.js and its CSV file.
use mathlib.Core.Option
use ribs.Base.{
  ℕ, suc, Bool, true, false, Option, none, some, List, [], ◌∷◌, ◌++◌, Text, codes, trim, join,
  if◌then◌else◌,
}
use ribs.Number.Defs.{Number, of_ℕ, add, sub, mul, div, lt, equal}
use ribs.Number.Print.{to_text}
use ribs.Fmt.Units.{format_bytes_binary, format_fil}
use ribs.Fmt.Dates.{Dates, format_timestamp}
use ribs.Providers.Page.{Provider, Widths, calculate_deal_percentage, widths}

-- `avgMonthDays` and `epochToMonth` of helpers/fmt.js.
abbrev pub avg_month_days : Number
avg_month_days = div (of_ℕ 30436875) (of_ℕ 1000000)

abbrev pub epoch_to_month : Number
epoch_to_month = mul (mul (mul (div (of_ℕ 60) (of_ℕ 30)) (of_ℕ 60)) (of_ℕ 24)) avg_month_days

abbrev pub if_set : Bool → Text → Text
if_set b t = if b then t else []

unfoldable pub features : Provider → Text
features p = trim (
    if_set p.booster_http (codes "http ")
    ++ (codes " " ++ if_set p.booster_bitswap (codes "bitswap")))

unfoldable pub piece_sizes : Provider → Option Text
piece_sizes p = elim (format_bytes_binary p.ask_min_piece_size) [
  | none ↦ none
  | some low ↦
      Option.map (λ high. low ++ (codes " to " ++ high)) (format_bytes_binary p.ask_max_piece_size)
]

unfoldable pub prices : Provider → Text
prices p =
    format_fil (mul p.ask_price epoch_to_month)
    ++ (codes " (" ++ (format_fil (mul p.ask_verified_price epoch_to_month) ++ codes ")"))

unfoldable pub retriev_text : Provider → Text
retriev_text p =
    to_text p.retriev_deals
    ++ (codes " ("
        ++ (to_text
              (calculate_deal_percentage p.retriev_deals (add p.unretriev_deals p.retriev_deals))
            ++ codes "%)"))

-- A row; `long_ago` is the class "providers-nodeal-longtime".
pub record ProviderRow : Type 0 where
  pub position : Text
  pub link : Text
  pub address : Text
  pub piece_sizes : Option Text
  pub prices : Text
  pub features : Text
  pub started : Text
  pub rejected : Text
  pub fail : Text
  pub success : Text
  pub retriev : Text
  pub bars : Widths
  pub long_ago : Bool
  pub last_start : Option Text

abbrev pub provider_link : Provider → Text
provider_link p = codes "/provider/" ++ (codes "f0" ++ to_text p.id)

abbrev pub csv_header : Text
csv_header =
    codes "ID,DealStarted,DealSuccess,DealFail,DealRejected,MostRecentDealStart,RetrievPercent"

-- A row in front of the rows that come after it, where both are there.
abbrev pub cons_row : Option Text → Option (List Text) → Option (List Text)
cons_row none rows = none
cons_row (some row) rows = Option.map (λ rs. row ∷ rs) rows

module _ (dates : Dates) (now : Number) where
  unfoldable pub last_deal_start : Provider → Option Text
  last_deal_start p =
      if equal p.most_recent_deal_start (of_ℕ 0)
      then some (codes "Never")
      else format_timestamp dates now p.most_recent_deal_start false

  unfoldable pub provider_row : ℕ → Provider → ProviderRow
  unfolding features piece_sizes prices retriev_text last_deal_start
  provider_row i p = record {
    position = to_text (of_ℕ (suc i)) ++ codes ".";
    link = provider_link p;
    address = codes "f0" ++ to_text p.id;
    piece_sizes = piece_sizes p;
    prices = prices p;
    features = features p;
    started = to_text p.deal_started;
    rejected = to_text p.deal_rejected;
    fail = to_text p.deal_fail;
    success = to_text p.deal_success;
    retriev = retriev_text p;
    bars = widths p;
    long_ago = lt (of_ℕ 80000000) (sub now (mul p.most_recent_deal_start (of_ℕ 1000)));
    last_start = last_deal_start p;
  }

  unfoldable pub provider_rows : ℕ → List Provider → List ProviderRow
  unfolding provider_row
  provider_rows i [] = []
  provider_rows i (p ∷ ps) = provider_row i p ∷ provider_rows (suc i) ps

  -- A row of `generateCSVData`; none where `formatTimestamp` throws.
  unfoldable pub csv_row : Provider → Option Text
  csv_row p =
      let percentage =
        calculate_deal_percentage p.retriev_deals (add p.unretriev_deals p.retriev_deals) in
      Option.map
        (λ date.
          (codes "f0" ++ to_text p.id)
          ++ (codes ","
              ++ (to_text p.deal_started
                  ++ (codes ","
                      ++ (to_text p.deal_success
                          ++ (codes ","
                              ++ (to_text p.deal_fail
                                  ++ (codes ","
                                      ++ (to_text p.deal_rejected
                                          ++ (codes ","
                                              ++ (date
                                                  ++ (codes "," ++ to_text percentage))))))))))))
        (format_timestamp dates now p.most_recent_deal_start true)

  unfoldable pub csv_rows : List Provider → Option (List Text)
  csv_rows [] = some []
  csv_rows (p ∷ ps) = cons_row (csv_row p) (csv_rows ps)

  -- `generateCSVData`
  unfoldable pub generate_csv_data : List Provider → Option Text
  generate_csv_data providers =
      Option.map (λ rows. join 10 (csv_header ∷ rows)) (csv_rows providers)
