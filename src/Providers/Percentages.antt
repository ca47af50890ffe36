-- ===== src/Providers/Percentages.antt =====
-- The percentages of routes/Providers.js.
use ribs.Base.{ℕ, ◌+◌, ◌*◌, ◌/◌, ◌≤◌, ◌<◌, ◌≡◌, refl, false, arith, ◌==◌, inl, inr, Bool-cases}
use ribs.Number.Rounding.{unit, significands}
use ribs.Number.Defs.{Number, fin, of_ℕ, div, mul, round}
use ribs.Number.Exact.{whole, of_ℕ-whole, equal-whole, add-whole}
use ribs.Number.Percent.{percent-le}
use ribs.Providers.Page.{Provider, calculate_deal_percentage, widths}

-- A whole percentage.
abbrev pub IsPercentage : Number → Type 0
IsPercentage x = (q : ℕ) × (q ≤ 100) × (x ≡ whole q)

rounded-le : (w : ℕ) → w ≤ 100 * unit → (2 * w + unit) / (2 * unit) ≤ 100
unfolding unit
rounded-le w h = omega arith

round-IsPercentage : (w : ℕ) → w ≤ 100 * unit → IsPercentage (round (fin false w))
unfolding round
round-IsPercentage w h = ((2 * w + unit) / (2 * unit), rounded-le w h, refl)

part-IsPercentage :
    (p t : ℕ) → 0 < t → p ≤ t → IsPercentage (round (mul (div (whole p) (whole t)) (of_ℕ 100)))
part-IsPercentage p t pos h =
    let (w, le, e) = percent-le p t pos h in rw e (round-IsPercentage w le)

-- A part of a whole number of deals is a whole percentage from 0 to 100, also when there are none.
pub calculate_deal_percentage-IsPercentage :
    (p t : ℕ) → p ≤ t → IsPercentage (calculate_deal_percentage (whole p) (whole t))
unfolding calculate_deal_percentage
calculate_deal_percentage-IsPercentage p t h = elim (Bool-cases (t == 0)) [
  | inl e ↦ rw (of_ℕ-whole 0 (omega arith), equal-whole t 0, e) (0, omega arith, refl)
  | inr e ↦
      rw (of_ℕ-whole 0 (omega arith), equal-whole t 0, e) (part-IsPercentage p t (ground arith) h)
]

-- A provider whose counts are whole numbers, with no more rejected, failed and sealed than started.
pub record IsCounted (p : Provider) : Type 0 where
  pub started : ℕ
  pub rejected : ℕ
  pub fail : ℕ
  pub success : ℕ
  pub retriev : ℕ
  pub unretriev : ℕ
  pub deal_started : p.deal_started ≡ whole started
  pub deal_rejected : p.deal_rejected ≡ whole rejected
  pub deal_fail : p.deal_fail ≡ whole fail
  pub deal_success : p.deal_success ≡ whole success
  pub retriev_deals : p.retriev_deals ≡ whole retriev
  pub unretriev_deals : p.unretriev_deals ≡ whole unretriev
  pub rejected_le : rejected ≤ started
  pub fail_le : fail ≤ started
  pub success_le : success ≤ started
  pub started_lt : started < significands
  pub total_lt : unretriev + retriev < significands

-- Every bar in the row of a provider whose counts are whole numbers, with no more rejected, failed
-- and sealed deals than started ones, is a whole percentage from 0 to 100.
pub widths-IsPercentage :
    (p : Provider)
    → IsCounted p
    → IsPercentage (widths p).rejected
      × IsPercentage (widths p).fail
      × IsPercentage (widths p).success
      × IsPercentage (widths p).retriev
unfolding widths
widths-IsPercentage p c = (
  rw (c.deal_rejected, c.deal_started) (calculate_deal_percentage-IsPercentage _ _ c.rejected_le),
  rw (c.deal_fail, c.deal_started) (calculate_deal_percentage-IsPercentage _ _ c.fail_le),
  rw (c.deal_success, c.deal_started) (calculate_deal_percentage-IsPercentage _ _ c.success_le),
  rw (c.retriev_deals, c.unretriev_deals, add-whole c.unretriev c.retriev c.total_lt)
      (calculate_deal_percentage-IsPercentage c.retriev (c.unretriev + c.retriev) (omega arith)),
)
