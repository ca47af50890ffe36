-- ===== src/Providers/Csv.antt =====
-- The CSV file of routes/Providers.js read back: lines at line feeds, fields at commas.
use mathlib.Core.Option
use ribs.Base.{
  ℕ, ◌+◌, ◌*◌, ◌^◌, ◌≤◌, ◌<◌, ◌≡◌, refl, ap, ◌∙◌, true, some, List, [], ◌∷◌, ◌++◌, map, All, arith,
  Text, codes, join, decimal, split, IsFree, split-join, IsFree-join, is_free-IsFree,
}
use ribs.Number.Rounding.{significands}
use ribs.Number.Defs.{Number, add}
use ribs.Number.Exact.{whole, add-whole}
use ribs.Number.Print.{to_text}
use ribs.Number.Numerals.{All-decimal, digits-IsFree}
use ribs.Fmt.Times.{to_text-whole}
use ribs.Fmt.Timestamps.{format_timestamp-date}
use ribs.Fmt.Dates.{Dates, before_t, format_timestamp}
use ribs.Providers.Page.{Provider, calculate_deal_percentage}
use ribs.Providers.Percentages.{IsCounted, IsPercentage, calculate_deal_percentage-IsPercentage}
use ribs.Providers.Rows.{csv_row, csv_rows, cons_row, csv_header, generate_csv_data}

-- Digits and dashes, as in a date.
abbrev pub IsDateChar : ℕ → Type 0
IsDateChar c = (45 ≤ c) × (c ≤ 57)

date-IsFree : (c : ℕ) (t : Text) → c < 45 → All IsDateChar t → IsFree c t
date-IsFree c [] h a = tt
date-IsFree c (x ∷ t) h ((l, u), a) = (λ e. absurd (omega arith), date-IsFree c t h a)

small : (q : ℕ) → q ≤ 100 → q < significands
small q h = omega arith

number-IsFree :
    (c : ℕ) (x : Number) (n : ℕ) → c < 45 → n < significands → x ≡ whole n → IsFree c (to_text x)
number-IsFree c x n hc hn e =
    rw (e, to_text-whole n hn) (digits-IsFree c (decimal n) (omega arith) (All-decimal n))

abbrev pub columns : List Text
columns =
    codes "ID"
    ∷ codes "DealStarted"
    ∷ codes "DealSuccess"
    ∷ codes "DealFail"
    ∷ codes "DealRejected"
    ∷ codes "MostRecentDealStart"
    ∷ codes "RetrievPercent"
    ∷ []

header-IsFree : IsFree 10 csv_header
header-IsFree = is_free-IsFree 10 csv_header refl

module _ (dates : Dates) (iso : Number → Text) where
  -- A provider of whole numbers, whose last deal starts at a second that has a date.
  pub record IsListed (p : Provider) : Type 0 where
    pub counted : IsCounted p
    pub number : ℕ
    pub number_lt : number < significands
    pub id : p.id ≡ whole number
    pub second : ℕ
    pub second_lt : second * 1000 < 2 ^ 50
    pub most_recent : p.most_recent_deal_start ≡ whole second
    pub value : dates.time_value (whole (second * 1000)) ≡ whole (second * 1000)
    pub formatted :
        dates.to_iso_string (whole (second * 1000)) ≡ some (iso p.most_recent_deal_start)
    pub is_date : All IsDateChar (before_t (iso p.most_recent_deal_start))

  abbrev pub percentage : Provider → Number
  percentage p = calculate_deal_percentage p.retriev_deals (add p.unretriev_deals p.retriev_deals)

  abbrev pub fields : Provider → List Text
  fields p =
      (codes "f0" ++ to_text p.id)
      ∷ to_text p.deal_started
      ∷ to_text p.deal_success
      ∷ to_text p.deal_fail
      ∷ to_text p.deal_rejected
      ∷ before_t (iso p.most_recent_deal_start)
      ∷ to_text (percentage p)
      ∷ []

  percentage-IsFree :
      (c : ℕ) (p : Provider) → c < 45 → IsCounted p → IsFree c (to_text (percentage p))
  percentage-IsFree c p h k =
      let (q, le, e) : IsPercentage (percentage p) =
        rw (k.retriev_deals, k.unretriev_deals, add-whole k.unretriev k.retriev k.total_lt)
          (calculate_deal_percentage-IsPercentage k.retriev (k.unretriev + k.retriev)
            (omega arith)) in
      number-IsFree c (percentage p) q h (small q le) e

  fields-IsFree : (c : ℕ) (p : Provider) → c < 45 → IsListed p → All (IsFree c) (fields p)
  fields-IsFree c p h l =
      let k = l.counted in
      let n = λ (x : Number) (m : ℕ) (lt : m < significands) (e : x ≡ whole m).
        number-IsFree c x m h lt e in
      (
        (λ e. absurd (omega arith), (λ e. absurd (omega arith), n p.id l.number l.number_lt l.id)),
        (
          n p.deal_started k.started k.started_lt k.deal_started,
          (
            n p.deal_success k.success (omega (arith, k.success_le, k.started_lt)) k.deal_success,
            (
              n p.deal_fail k.fail (omega (arith, k.fail_le, k.started_lt)) k.deal_fail,
              (
                n p.deal_rejected k.rejected (omega (arith, k.rejected_le, k.started_lt))
                    k.deal_rejected,
                (
                  date-IsFree c (before_t (iso p.most_recent_deal_start)) h l.is_date,
                  (percentage-IsFree c p h k, tt),
                ),
              ),
            ),
          ),
        ),
      )

  module _ (now : ℕ) (now_lt : now < 2 ^ 50) where
    csv_row-fields :
        (p : Provider) → IsListed p → csv_row dates (whole now) p ≡ some (join 44 (fields p))
    unfolding csv_row
    csv_row-fields p l = ap (Option.map _) (
        ap (λ t. format_timestamp dates (whole now) t true) l.most_recent
        ∙ format_timestamp-date dates l.second now 0 0 0 0 l.second_lt now_lt l.value l.formatted)

    csv_rows-fields :
        (ps : List Provider)
        → All IsListed ps
        → csv_rows dates (whole now) ps ≡ some (map (λ p. join 44 (fields p)) ps)
    unfolding csv_rows
    csv_rows-fields [] a = refl
    csv_rows-fields (p ∷ ps) (l, a) =
        ap (λ row. cons_row row (csv_rows dates (whole now) ps)) (csv_row-fields p l)
        ∙ ap (Option.map (λ rows. join 44 (fields p) ∷ rows)) (csv_rows-fields ps a)

    lines-IsFree :
        (ps : List Provider) → All IsListed ps → All (IsFree 10) (map (λ p. join 44 (fields p)) ps)
    lines-IsFree [] a = tt
    lines-IsFree (p ∷ ps) (l, a) = (
      IsFree-join 10 44 (fields p) (λ e. absurd (omega arith)) (fields-IsFree 10 p (omega arith) l),
      lines-IsFree ps a,
    )

    lines-fields :
        (ps : List Provider)
        → All IsListed ps
        → map (split 44) (map (λ p. join 44 (fields p)) ps) ≡ map fields ps
    lines-fields [] a = refl
    lines-fields (p ∷ ps) (l, a) =
        rw (lines-fields ps a)
          (ap (λ x. x ∷ map fields ps) (split-join 44 _ _ (fields-IsFree 44 p (omega arith) l)))

    -- For providers whose numbers are whole and below 2 ^ 53, and whose last deals start at seconds
    -- with a date of digits and dashes: the file, cut at line feeds and then at commas, is the
    -- header and the fields of each provider, in the order of the list.
    pub generate_csv_data-fields :
        (ps : List Provider)
        → All IsListed ps
        → Option.map (λ csv. map (split 44) (split 10 csv)) (generate_csv_data dates (whole now) ps)
          ≡ some (columns ∷ map fields ps)
    unfolding generate_csv_data
    generate_csv_data-fields ps a =
        ap
          (λ rows.
            Option.map (λ csv. map (split 44) (split 10 csv))
              (Option.map (λ rows. join 10 (csv_header ∷ rows)) rows))
          (csv_rows-fields ps a)
        ∙ ap (λ csv. some (map (split 44) csv))
            (split-join 10 csv_header (map (λ p. join 44 (fields p)) ps)
              (header-IsFree, lines-IsFree ps a))
        ∙ ap (λ rows. some (columns ∷ rows)) (lines-fields ps a)
