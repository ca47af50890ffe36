-- ===== src/Groups/Rows.antt =====
-- `Deal` of routes/Groups.js: the row of a deal.
use mathlib.Core.Option
use ribs.Base.{Option, none, some, ◌++◌, Text, codes, take, ltb, ◌&&◌, not, if◌then◌else◌}
use ribs.Number.Defs.{Number, of_ℕ, sub, mul, div}
use ribs.Number.Print.{to_text}
use ribs.Fmt.Units.{format_bytes_binary}
use ribs.Fmt.Duration.{epoch_to_duration}
use ribs.Fmt.Dates.{Dates, reference_time, epoch_to_date}
use ribs.Groups.Deals.{DealInfo, Retrieval, Stage, slice_last, truthy, deal_class, retrieval, stage}
use ribs.Groups.Views.{both}

-- The link to the page of the deal's provider.
abbrev pub deal_provider : DealInfo → Text
deal_provider d = codes "f0" ++ to_text (of_ℕ d.provider)

abbrev pub deal_provider_link : DealInfo → Text
deal_provider_link d = codes "/provider/" ++ deal_provider d

-- The message of a published deal and, with a deal id, the deal: addresses with their texts.
pub record Published : Type 0 where
  pub message : Text × Text
  pub deal : Option (Text × Text)

unfoldable pub published : DealInfo → Option Published
published d =
    if truthy d.pub_cid
    then some (record {
      message = (
        codes "https://filfox.info/en/message/" ++ d.pub_cid,
        codes "bafy.." ++ slice_last 16 d.pub_cid,
      );
      deal =
          if ltb 0 d.deal_id
          then some (
            codes "https://filfox.info/en/deal/" ++ to_text (of_ℕ d.deal_id),
            to_text (of_ℕ d.deal_id),
          )
          else none;
    })
    else none

-- The bytes that a running deal has received: their text and the width of the bar in percent.
unfoldable pub received : DealInfo → Option (Option Text × Number)
received d =
    if ltb 0 d.bytes_recv && (not d.sealed && not (truthy d.pub_cid))
    then some (
      both (codes " / ") (format_bytes_binary (of_ℕ d.bytes_recv))
          (format_bytes_binary (of_ℕ d.tx_size)),
      mul (div (of_ℕ d.bytes_recv) (of_ℕ d.tx_size)) (of_ℕ 100),
    )
    else none

pub record DealView : Type 0 where
  pub class : Text
  pub title : Text
  pub uuid : Text
  pub provider : Text × Text
  pub sealed : Option Retrieval
  pub timing : Option Text
  pub published : Option Published
  pub data_link : Option Text
  pub received : Option (Option Text × Number)
  pub stage : Stage

-- `data_cid` is empty where it is undefined: on the page of all groups, and with "RootCID" before the
-- first reply.
module _ (dates : Dates) (head_height : Number) (piece_cid data_cid : Text) where
  unfoldable pub timing : DealInfo → Option Text
  timing d =
      if d.sealed
      then Option.map
          (λ date.
            codes " Ends "
            ++ (date ++ (codes " " ++ epoch_to_duration (sub (of_ℕ d.end_epoch) head_height))))
          (epoch_to_date dates (of_ℕ d.end_epoch) (of_ℕ reference_time))
      else some (codes " Expires " ++ epoch_to_duration (sub (of_ℕ d.start_epoch) head_height))

  unfoldable pub deal_view : DealInfo → DealView
  unfolding deal_class retrieval stage published received timing
  deal_view d = record {
    class = deal_class d;
    title = d.uuid;
    uuid = take 8 d.uuid ++ codes "... ";
    provider = (deal_provider_link d, deal_provider d);
    sealed = if d.sealed then some (retrieval d) else none;
    timing = timing d;
    published = published d;
    data_link =
        if truthy data_cid
        then some (
            codes "https://dag.parts/view/"
            ++ (deal_provider d
                ++ (codes "/" ++ (piece_cid ++ (codes "/" ++ (data_cid ++ codes "/?view=ipld"))))))
        else none;
    received = received d;
    stage = stage d;
  }
