-- ===== src/Markup/ProviderTexts.antt =====
-- The texts of formatters on the pages of providers.
use ribs.Base.{
  ℕ, suc, ◌≡◌, false, not, ◌||◌, Bool-cases, inl, inr, Option, none, some, List, [], ◌∷◌, ◌++◌, map,
  Text, codes, text_eq, All, All-append, All-map,
}
use ribs.Number.Defs.{Number, of_ℕ, equal, truthy_number}
use ribs.Number.Exact.{whole}
use ribs.Number.Bounds.{IsDouble}
use ribs.Fmt.Dates.{Dates}
use ribs.Fmt.Units.{format_bytes_binary}
use ribs.Fmt.Loops.{Returns, Returns-map, format_bytes_binary-Returns}
use ribs.Groups.Deals.{truthy}
use ribs.Providers.Page.{Provider}
use ribs.Providers.Rows.{provider_row, provider_rows, piece_sizes, last_deal_start}
use ribs.ProviderPage.Page.{ProviderMeta, ProviderDeal, ProviderInfo}
use ribs.ProviderPage.Rows.{DealRow, meta_rows, transfer, deal_row, deal_rows, epoch_text}
use ribs.Markup.Html.{optional, each, texts, anchor_of}
use ribs.Markup.Texts.{
  Renders, optional-Renders, each-Renders, HasTimes, IsSecond, IsEpoch, epoch_to_date-Returns,
  format_timestamp-Returns,
}
use ribs.Markup.Providers.{
  provider_row_html, providers_html, meta_row_html, transfer_html, error_html, deal_row_html,
  info_html, provider_html,
}

bytes-Returns : (x : Number) → IsDouble x → Returns (format_bytes_binary x)
bytes-Returns x h = (format_bytes_binary-Returns x h).0

between-Returns :
    (between : Text) (a b : Option Text)
    → Returns a
    → Returns b
    → Returns
        (elim a [ none ↦ none | some t ↦ mathlib.Core.Option.map (λ u. t ++ (between ++ u)) b ])
between-Returns between none b h k = h
between-Returns between (some t) b h k = Returns-map _ b k

-- A provider of the list whose last deal has a date.
pub record HasStart (p : Provider) : Type 0 where
  pub ask_min_piece_size : IsDouble p.ask_min_piece_size
  pub ask_max_piece_size : IsDouble p.ask_max_piece_size
  pub second : ℕ
  pub most_recent : p.most_recent_deal_start ≡ whole second
  pub is_second : IsSecond second

-- A deal of a provider whose times have dates.
pub record HasDates (d : ProviderDeal) : Type 0 where
  pub second : ℕ
  pub start_time : d.start_time ≡ whole second
  pub is_second : IsSecond second
  pub start : ℕ
  pub start_epoch : d.start_epoch ≡ whole start
  pub is_start : IsEpoch start
  pub end_ : ℕ
  pub end_epoch : d.end_epoch ≡ whole end_
  pub is_end : IsEpoch end_
  pub bytes_recv : IsDouble d.bytes_recv
  pub tx_size : IsDouble d.tx_size

abbrev pub AreDated : Option (List ProviderDeal) → Type 0
AreDated none = Unit
AreDated (some deals) = All HasDates deals

-- The reply about a provider.
pub record IsDatedInfo (info : ProviderInfo) : Type 0 where
  pub ask_min_piece_size : IsDouble info.meta.ask_min_piece_size
  pub ask_max_piece_size : IsDouble info.meta.ask_max_piece_size
  pub retr_probe_bytes : IsDouble info.meta.retr_probe_bytes
  pub deals : AreDated info.recent_deals

abbrev pub AreInfosDated : Option ProviderInfo → Type 0
AreInfosDated none = Unit
AreInfosDated (some info) = IsDatedInfo info

error_html-Renders : (t : Text) → Renders (error_html t)
error_html-Renders [] = tt
error_html-Renders (c ∷ t) = tt

transfer-Renders : (d : ProviderDeal) → HasDates d → Renders (optional transfer_html (transfer d))
unfolding transfer
transfer-Renders d h =
    elim (Bool-cases (
      not (truthy_number d.bytes_recv)
      || (text_eq d.status (codes "Transferred") || truthy d.pub_cid))) [
        | inl e ↦ rw e tt
        | inr e ↦ rw e (
          between-Returns (codes "/") _ _ (bytes-Returns d.bytes_recv h.bytes_recv)
              (bytes-Returns d.tx_size h.tx_size),
          tt,
        )
      ]

row-Renders :
    (r : DealRow)
    → Returns r.proposed
    → Returns r.start
    → Returns r.end_
    → Renders (optional transfer_html r.transferred)
    → Renders (deal_row_html r)
row-Renders r p s e t = (
  p,
  (
    s,
    (
      e,
      All-append Returns (texts (error_html r.error)) _ (error_html-Renders r.error) (
          All-append Returns (texts (optional anchor_of r.deal)) _
            (optional-Renders anchor_of r.deal (λ a. tt))
            (All-append Returns (texts (optional transfer_html r.transferred)) _ t
              (optional-Renders anchor_of r.publish (λ a. tt)))),
    ),
  ),
)

module _ (dates : Dates) (times : HasTimes dates) (now : Number) where
  last_deal_start-Returns : (p : Provider) → HasStart p → Returns (last_deal_start dates now p)
  unfolding last_deal_start
  last_deal_start-Returns p h = elim (Bool-cases (equal p.most_recent_deal_start (of_ℕ 0))) [
    | inl e ↦ rw e tt
    | inr e ↦
        rw (e, h.most_recent) (format_timestamp-Returns dates times now h.second false h.is_second)
  ]

  provider_rows-Renders :
      (i : ℕ) (ps : List Provider)
      → All HasStart ps
      → Renders (each provider_row_html (provider_rows dates now i ps))
  unfolding provider_rows provider_row piece_sizes
  provider_rows-Renders i [] a = tt
  provider_rows-Renders i (p ∷ ps) (h, a) = (
    between-Returns (codes " to ") _ _ (bytes-Returns p.ask_min_piece_size h.ask_min_piece_size)
        (bytes-Returns p.ask_max_piece_size h.ask_max_piece_size),
    (last_deal_start-Returns p h, provider_rows-Renders (suc i) ps a),
  )

  pub providers_html-Renders :
      (ps : List Provider)
      → All HasStart ps
      → Renders (providers_html (provider_rows dates now 0 ps))
  providers_html-Renders ps a = provider_rows-Renders 0 ps a

  epoch_text-Returns :
      (head_height x : Number) (n : ℕ)
      → x ≡ whole n
      → IsEpoch n
      → Returns (epoch_text dates now head_height x)
  unfolding epoch_text
  epoch_text-Returns head_height x n e h =
      rw e (Returns-map _ _ (epoch_to_date-Returns dates times n h))

  deal_row-Renders :
      (head_height : Number) (d : ProviderDeal)
      → HasDates d
      → Renders (deal_row_html (deal_row dates now head_height d))
  unfolding deal_row
  deal_row-Renders head_height d h =
      row-Renders (deal_row dates now head_height d)
        (rw h.start_time (format_timestamp-Returns dates times now h.second false h.is_second))
        (epoch_text-Returns head_height d.start_epoch h.start h.start_epoch h.is_start)
        (epoch_text-Returns head_height d.end_epoch h.end_ h.end_epoch h.is_end)
        (transfer-Renders d h)

  deal_rows-Renders :
      (head_height : Number) (meta : ProviderMeta) (recent_deals : Option (List ProviderDeal))
      → AreDated recent_deals
      → Renders (
          each deal_row_html
            (deal_rows dates now head_height (record { meta = meta; recent_deals = recent_deals })))
  unfolding deal_rows
  deal_rows-Renders head_height meta none h = tt
  deal_rows-Renders head_height meta (some deals) h =
      each-Renders deal_row_html (map (deal_row dates now head_height) deals) (
        All-map HasDates (λ r. Renders (deal_row_html r)) (deal_row dates now head_height) deals
          (deal_row-Renders head_height) h)

  meta_rows-Renders :
      (provider_id : Text) (m : ProviderMeta)
      → IsDouble m.ask_min_piece_size
      → IsDouble m.ask_max_piece_size
      → IsDouble m.retr_probe_bytes
      → Renders (each meta_row_html (meta_rows provider_id m))
  unfolding meta_rows
  meta_rows-Renders provider_id m low high probed =
      let min = bytes-Returns m.ask_min_piece_size low in
      let max = bytes-Returns m.ask_max_piece_size high in
      let probe = bytes-Returns m.retr_probe_bytes probed in
      (
        tt,
        (
          tt,
          (
            tt,
            (
              tt,
              (
                tt,
                (
                  tt,
                  (min, (max, (tt, (tt, (tt, (tt, (tt, (tt, (tt, (tt, (tt, (probe, tt)))))))))))),
                ),
              ),
            ),
          ),
        ),
      )

  info-Renders :
      (head_height : Number) (provider_id : Text) (info : ProviderInfo)
      → IsDatedInfo info
      → Renders (info_html dates now head_height provider_id info)
  info-Renders head_height provider_id info h =
      All-append Returns (texts (each meta_row_html (meta_rows provider_id info.meta))) _
        (meta_rows-Renders provider_id info.meta h.ask_min_piece_size h.ask_max_piece_size
          h.retr_probe_bytes)
        (deal_rows-Renders head_height info.meta info.recent_deals h.deals)

  pub provider_html-Renders :
      (provider_id : Text) (head_height : Number) (provider : Option ProviderInfo)
      → AreInfosDated provider
      → Renders (
          provider_html dates now provider_id
            (record { provider = provider; head_height = head_height }))
  provider_html-Renders provider_id head_height none h = tt
  provider_html-Renders provider_id head_height (some info) h =
      info-Renders head_height provider_id info h
