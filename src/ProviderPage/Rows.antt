-- ===== src/ProviderPage/Rows.antt =====
-- What the page of routes/Provider.js shows of a provider and of its deals. A text is none where a
-- formatter does not return.
use mathlib.Core.Option
use ribs.Base.{
  Bool, false, not, ◌||◌, Option, none, some, List, [], ◌∷◌, ◌++◌, map, Text, codes, text_eq, take,
  if◌then◌else◌,
}
use ribs.Number.Defs.{truthy_number, Number, of_ℕ, sub, mul, div}
use ribs.Number.Print.{to_text}
use ribs.Fmt.Units.{format_bytes_binary, format_fil}
use ribs.Fmt.Duration.{epoch_to_duration}
use ribs.Fmt.Dates.{Dates, reference_time, epoch_to_date, format_timestamp}
use ribs.Groups.Deals.{slice_last, truthy}
use ribs.Status.Cells.{Row}
use ribs.ProviderPage.Page.{ProviderMeta, ProviderDeal, ProviderInfo}

abbrev pub yes_no : Bool → Option Text
yes_no b = some (if b then codes "Yes" else codes "No")

-- The rows of the first table; "Links" holds the address that it leads to.
unfoldable pub meta_rows : Text → ProviderMeta → List Row
meta_rows provider_id m =
    (codes "Ping OK", yes_no m.ping_ok)
    ∷ (codes "Boost Deals", yes_no m.boost_deals)
    ∷ (codes "Booster HTTP", yes_no m.booster_http)
    ∷ (codes "Booster Bitswap", yes_no m.booster_bitswap)
    ∷ (codes "Ask Price", some (format_fil m.ask_price))
    ∷ (codes "Ask Verified Price", some (format_fil m.ask_verified_price))
    ∷ (codes "Ask Min Piece Size", format_bytes_binary m.ask_min_piece_size)
    ∷ (codes "Ask Max Piece Size", format_bytes_binary m.ask_max_piece_size)
    ∷ (codes "Indexed Success", some (to_text m.indexed_success))
    ∷ (codes "Indexed Fail", some (to_text m.indexed_fail))
    ∷ (codes "Deal Started", some (to_text m.deal_started))
    ∷ (codes "Deal Success", some (to_text m.deal_success))
    ∷ (codes "Deal Fail", some (to_text m.deal_fail))
    ∷ (codes "Deal Rejected", some (to_text m.deal_rejected))
    ∷ (codes "Retr Probe Success", some (to_text m.retr_probe_success))
    ∷ (codes "Retr Probe Fail", some (to_text m.retr_probe_fail))
    ∷ (codes "Retr Probe Blocks", some (to_text m.retr_probe_blocks))
    ∷ (codes "Retr Probe Bytes", format_bytes_binary m.retr_probe_bytes)
    ∷ (codes "Links", some (codes "https://filfox.info/en/address/" ++ provider_id))
    ∷ []

-- The background of a deal's row.
unfoldable pub deal_colour : ProviderDeal → Text
deal_colour d =
    if d.rejected
    then codes "#fff7cc"
    else if d.failed
    then codes "#f5c4c4"
    else if d.sealed
    then codes "#caffcd"
    else codes "#f2f3ff"

-- A bar: the text above it and its width in percent.
pub record Transfer : Type 0 where
  pub caption : Option Text
  pub width : Number

unfoldable pub transfer : ProviderDeal → Option Transfer
transfer d =
    if not (truthy_number d.bytes_recv)
      || (text_eq d.status (codes "Transferred") || truthy d.pub_cid)
    then none
    else some (record {
      caption = elim (format_bytes_binary d.bytes_recv) [
        | none ↦ none
        | some received ↦
            Option.map (λ size. received ++ (codes "/" ++ size)) (format_bytes_binary d.tx_size)
      ];
      width = mul (div d.bytes_recv d.tx_size) (of_ℕ 100);
    })

-- A link: its address and its text.
unfoldable pub deal_link : ProviderDeal → Option (Text × Text)
deal_link d =
    if truthy_number d.deal_id
    then some (codes "https://filfox.info/en/deal/" ++ to_text d.deal_id, to_text d.deal_id)
    else none

unfoldable pub publish_link : ProviderDeal → Option (Text × Text)
publish_link d =
    if truthy d.pub_cid
    then some (
      codes "https://filfox.info/en/message/" ++ d.pub_cid,
      codes "bafy.." ++ slice_last 16 d.pub_cid,
    )
    else none

pub record DealRow : Type 0 where
  pub background : Text
  pub title : Text
  pub uuid : Text
  pub status : Text
  pub proposed : Option Text
  pub start : Option Text
  pub end_ : Option Text
  pub error : Text
  pub deal : Option (Text × Text)
  pub transferred : Option Transfer
  pub publish : Option (Text × Text)

module _ (dates : Dates) (now head_height : Number) where
  -- `<b>{epochToDate(epoch)}</b>, {epochToDuration(epoch - headHeight)}`
  unfoldable pub epoch_text : Number → Option Text
  epoch_text epoch =
      Option.map (λ date. date ++ (codes ", " ++ epoch_to_duration (sub epoch head_height)))
        (epoch_to_date dates epoch (of_ℕ reference_time))

  unfoldable pub deal_row : ProviderDeal → DealRow
  unfolding deal_colour deal_link publish_link transfer epoch_text
  deal_row d = record {
    background = deal_colour d;
    title = d.uuid;
    uuid = take 8 d.uuid ++ codes "... ";
    status = d.status;
    proposed = format_timestamp dates now d.start_time false;
    start = epoch_text d.start_epoch;
    end_ = epoch_text d.end_epoch;
    error = d.error;
    deal = deal_link d;
    transferred = transfer d;
    publish = publish_link d;
  }

  unfoldable pub deal_rows : ProviderInfo → List DealRow
  unfolding deal_row
  deal_rows info = elim info.recent_deals [ none ↦ [] | some deals ↦ map deal_row deals ]
