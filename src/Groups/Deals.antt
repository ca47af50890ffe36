-- ===== src/Groups/Deals.antt =====
-- The deals of a group (routes/Groups.js, routes/Group.js).
use ribs.Base.{
  ℕ, ◌+◌, ◌-◌, ◌<◌, ◌≡◌, refl, Bool, true, false, not, ◌&&◌, List, [], ◌∷◌, ◌++◌, arith, length,
  take, drop, keep, length-append, length-take, length-drop, Text, codes, text_eq, ltb, ◌==◌,
  if◌then◌else◌, lt→ltb,
}

-- The fields of a deal that its row depends on; counts and heights are whole numbers.
pub record DealInfo : Type 0 where
  pub uuid : Text
  pub provider : ℕ
  pub start_epoch : ℕ
  pub end_epoch : ℕ
  pub tx_size : ℕ
  pub deal_id : ℕ
  pub pub_cid : Text
  pub sealed : Bool
  pub failed : Bool
  pub bytes_recv : ℕ
  pub status : Text
  pub seal_status : Text
  pub error : Text
  pub retr_success : ℕ
  pub retr_fail : ℕ
  pub no_recent_success : Bool

-- `s.slice(-n)` with n above 0.
abbrev pub slice_last : ℕ → Text → Text
slice_last n s = drop (length s - n) s

-- `errorMessage`
unfoldable pub error_message : Text → Text
error_message error =
    if ltb 49 (length error) then take 24 error ++ (codes "..." ++ slice_last 24 error) else error

-- The class names of a row.
unfoldable pub deal_class : DealInfo → Text
deal_class d =
    codes "Deal"
    ++ ((if d.failed then codes " deal-failed" else [])
        ++ ((if d.sealed then codes " deal-sealed" else [])
            ++ (if ltb 0 d.retr_success then codes " deal-sealed-retr" else [])))

-- What a sealed deal's row says of retrievals.
pub data Retrieval : Type 0 where
  unknown retrievable unretrievable : Retrieval

unfoldable pub retrieval : DealInfo → Retrieval
retrieval d =
    if d.retr_success == 0 && d.retr_fail == 0
    then unknown
    else if ltb 0 d.retr_success && not d.no_recent_success
    then retrievable
    else unretrievable

-- `isSealingStatus`
unfoldable pub is_sealing_status : Text → Bool
is_sealing_status status = not (text_eq status (codes "Accepted"))

-- A string is true when it is not empty.
abbrev pub truthy : Text → Bool
truthy s = ltb 0 (length s)

-- The part of a row that is shown until the deal is sealed or published: a progress bar, and the
-- status or the error with its shortened text.
pub data Stage : Type 0 where
  past : Stage
  running : (progress : Bool) (status sealing : Text) → Stage
  erred : (progress : Bool) (status error shortened : Text) → Stage

unfoldable pub stage : DealInfo → Stage
unfolding is_sealing_status error_message
stage d =
    if not d.sealed && not (truthy d.pub_cid)
    then (if text_eq d.error []
        then running (ltb 0 d.bytes_recv) d.status (
            if is_sealing_status d.status && truthy d.seal_status
            then codes " (" ++ (d.seal_status ++ codes ")")
            else [])
        else erred (ltb 0 d.bytes_recv) d.status d.error (error_message d.error))
    else past

-- `dealCounts`
pub record DealCounts : Type 0 where
  pub started : ℕ
  pub sealed : ℕ
  pub errors : ℕ

abbrev pub count_deal : DealCounts → DealInfo → DealCounts
count_deal counts deal =
    if deal.failed
    then record counts { errors = counts.errors + 1 }
    else if deal.sealed
    then record counts { sealed = counts.sealed + 1 }
    else record counts { started = counts.started + 1 }

abbrev pub count_from : DealCounts → List DealInfo → DealCounts
count_from counts [] = counts
count_from counts (d ∷ ds) = count_from (count_deal counts d) ds

unfoldable pub deal_counts : List DealInfo → DealCounts
deal_counts deals = count_from (record { started = 0; sealed = 0; errors = 0 }) deals

-- `dealsToDisplay`
unfoldable pub deals_to_display : Bool → List DealInfo → List DealInfo
deals_to_display show_failed_deals deals =
    if show_failed_deals then deals else keep (λ d. not d.failed) deals

abbrev pub sealed_only : List DealInfo → List DealInfo
sealed_only = keep (λ d. not d.failed && d.sealed)

count_from-keep :
    (c : DealCounts) (ds : List DealInfo)
    → ((count_from c ds).errors ≡ c.errors + length (keep (λ d. d.failed) ds))
      × ((count_from c ds).sealed ≡ c.sealed + length (sealed_only ds))
      × ((count_from c ds).started
          ≡ c.started + length (keep (λ d. not d.failed && not d.sealed) ds))
count_from-keep c [] = (omega arith, omega arith, omega arith)
count_from-keep c (d ∷ ds) = ground (arith, count_from-keep (count_deal c d) ds)

length-keep-not :
    (ds : List DealInfo)
    → length (keep (λ d. not d.failed) ds)
      ≡ length (sealed_only ds) + length (keep (λ d. not d.failed && not d.sealed) ds)
length-keep-not [] = omega arith
length-keep-not (d ∷ ds) = ground (arith, length-keep-not ds)

length-keep_split :
    (ds : List DealInfo)
    → length (keep (λ d. d.failed) ds) + length (keep (λ d. not d.failed) ds) ≡ length ds
length-keep_split [] = omega arith
length-keep_split (d ∷ ds) = ground (arith, length-keep_split ds)

-- Each deal is counted once: a failed one as an error, another as sealed or as started by its flag.
-- The deals that are shown while failed ones are hidden are as many as those sealed and started.
pub deal_counts-partition :
    (ds : List DealInfo)
    → let c = deal_counts ds in
      (c.errors ≡ length (keep (λ d. d.failed) ds))
      × (c.sealed ≡ length (sealed_only ds))
      × (c.started + c.sealed + c.errors ≡ length ds)
      × (length (deals_to_display false ds) ≡ c.started + c.sealed)
      × (deals_to_display true ds ≡ ds)
unfolding deal_counts deals_to_display
deal_counts-partition ds =
    let (errors, sealed, started) =
      count_from-keep (record { started = 0; sealed = 0; errors = 0 }) ds in
    let open_deals = length-keep-not ds in
    let split = length-keep_split ds in (omega arith, omega arith, omega arith, omega arith, refl)

-- An error of more than 49 characters is shown in 51: its first 24 and its last 24, with three dots
-- between them.
error_message-length :
    (e : Text)
    → 49 < length e
    → (length (error_message e) ≡ 51)
      × (error_message e ≡ take 24 e ++ (codes "..." ++ drop (length e - 24) e))
unfolding error_message
error_message-length e h =
    let head : length (take 24 e) ≡ 24 = omega (arith, length-take 24 e) in
    let tail : length (drop (length e - 24) e) ≡ 24 =
      omega (arith, length-drop (length e - 24) e) in
    rw (lt→ltb 49 (length e) h) (
      omega (
        arith,
        length-append (take 24 e) (codes "..." ++ drop (length e - 24) e),
        length-append (codes "...") (drop (length e - 24) e),
      ),
      refl,
    )
