-- ===== src/Status/Rendering.antt =====
-- How large the rates of routes/Status.js are, and the rows of the staging table.
use native.Mathlib.Nat.{le_trans, mul-le-mul_right}
use ribs.Base.{
  All-map, ℕ, ◌*◌, ◌≤◌, ◌<◌, ◌≡◌, refl, Bool, true, false, Option, none, some, List, [], ◌∷◌, ◌++◌,
  All, Text, arith, ◌⊎◌, inl, inr, if◌then◌else◌,
}
use ribs.Number.Rounding.{unit, significands}
use ribs.Number.Defs.{Number, of_ℕ, sub, round}
use ribs.Number.Exact.{whole, of_ℕ-whole}
use ribs.Number.Bounds.{IsWithin, IsWithin-IsDouble, sub-IsWithin, round-IsWithin}
use ribs.Fmt.Averages.{calc_ema-IsWithin}
use ribs.Fmt.Loops.{Returns, Returns-map, format_num-Returns, format_bytes_binary-Returns}
use ribs.Status.Cells.{Row, followed_by, num, bytes, field}
use ribs.Status.Meter.{meter, polls, StagingStats, StagingTile, staging_start, staging_reply}
use ribs.Status.Rates.{answered, smoothed, rate, last_from, last_of, polls-staging}
use ribs.Status.RetrievalTiles.{staging_rows, upload_err}

-- A whole number up to `n`.
abbrev pub IsCount : ℕ → Number → Type 0
IsCount n x = (c : ℕ) × (c ≤ n) × (x ≡ whole c)

pub IsCount-IsWithin : (n m : ℕ) (x : Number) → n ≤ m → IsCount n x → IsWithin m x
IsCount-IsWithin n m x h (c, le, e) = rw e (mul-le-mul_right unit (le_trans le h))

-- Every row has a text.
abbrev pub Shows : List Row → Type 0
Shows = All (λ r. Returns r.1)

pub last_from-All {ℓ κ} :
    {A : Type ℓ} (P : A → Type κ) (x : A) (xs : List A) → P x → All P xs → P (last_from x xs)
last_from-All P x [] h a = h
last_from-All P x (y ∷ ys) h (hy, a) = last_from-All P y ys hy a

module _ (n : ℕ) (hn : 16 * n < significands) where
  meter-IsWithin :
      (now before ema : Number)
      → IsCount (8 * n) now
      → IsCount (8 * n) before
      → IsWithin (16 * n) ema
      → IsWithin (16 * n) (meter now before ema)
  meter-IsWithin now before ema (c, hc, e) (d, hd, e') h =
      rw (e, e')
        (calc_ema-IsWithin n hn (sub (whole c) (whole d)) ema
          (sub-IsWithin (8 * n) (omega arith) c d hc hd) h)

  smoothed-IsWithin :
      (before ema : Number) (xs : List Number)
      → IsCount (8 * n) before
      → IsWithin (16 * n) ema
      → All (IsCount (8 * n)) xs
      → IsWithin (16 * n) (smoothed before ema xs)
  smoothed-IsWithin before ema [] hb h a = h
  smoothed-IsWithin before ema (x ∷ xs) hb h (hx, a) =
      smoothed-IsWithin x (meter x before ema) xs hx (meter-IsWithin x before ema hx hb h) a

  zero-IsWithin : IsWithin (16 * n) (of_ℕ 0)
  zero-IsWithin = rw (of_ℕ-whole 0 (omega arith)) (omega arith)

  -- A counter of whole numbers up to 8 n has a smoothed rate of at most 16 n, however long it is
  -- polled: the rounding of the averages does not pile up.
  pub rate-IsWithin : (xs : List Number) → All (IsCount (8 * n)) xs → IsWithin (16 * n) (rate xs)
  rate-IsWithin [] a = zero-IsWithin
  rate-IsWithin (x ∷ xs) (hx, a) = smoothed-IsWithin x (of_ℕ 0) xs hx zero-IsWithin a

  -- What a cell shows is not there, or bounded.
  abbrev IsBounded : Option Number → Type 0
  IsBounded none = Unit
  IsBounded (some x) = IsWithin (16 * n) x

  pub num-Returns : (x : Option Number) → IsBounded x → Returns (num x)
  num-Returns none h = format_num-Returns _ 0 tt (λ e. cc)
  num-Returns (some x) h =
      let (double, finite) = IsWithin-IsDouble (16 * n) hn x h in
      format_num-Returns x 0 double finite

  pub bytes-Returns : (x : Option Number) → IsBounded x → Returns (bytes x)
  bytes-Returns none h = (format_bytes_binary-Returns _ tt).0
  bytes-Returns (some x) h = (format_bytes_binary-Returns x (IsWithin-IsDouble (16 * n) hn x h).0).0

  pub followed_by-Returns :
      (suffix : Text) (c : Option Text) → Returns c → Returns (followed_by suffix c)
  followed_by-Returns suffix c h = Returns-map _ c h

  -- A reply whose counters are whole numbers up to 8 n.
  pub record IsReply (r : StagingStats) : Type 0 where
    pub read_reqs : IsCount (8 * n) r.counters.read_reqs
    pub read_bytes : IsCount (8 * n) r.counters.read_bytes
    pub upload_bytes : IsCount (8 * n) r.counters.upload_bytes
    pub redirects : IsCount (8 * n) r.counters.redirects
    pub upload_err : IsCount (8 * n) r.upload_err

  -- A tile whose reply, if there is one, and whose averages are bounded.
  record IsTame (s : StagingTile) : Type 0 where
    reply : (s.staging_stats ≡ none) ⊎ ((r : StagingStats) × (s.staging_stats ≡ some r) × IsReply r)
    read_reqs : IsWithin (16 * n) s.emas.read_reqs
    read_bytes : IsWithin (16 * n) s.emas.read_bytes
    upload_bytes : IsWithin (16 * n) s.emas.upload_bytes
    redirects : IsWithin (16 * n) s.emas.redirects

  field-IsBounded :
      (f : StagingStats → Number) (s : StagingTile)
      → ((r : StagingStats) → IsReply r → IsCount (8 * n) (f r))
      → IsTame s
      → IsBounded (field f s.staging_stats)
  field-IsBounded f s h t = elim t.reply [
    | inl e ↦ rw e tt
    | inr (r, e, hr) ↦ rw e (IsCount-IsWithin (8 * n) (16 * n) (f r) (omega arith) (h r hr))
  ]

  upload_err-Returns : (s : StagingTile) → IsTame s → Returns (num (some (upload_err s)))
  upload_err-Returns s t = elim t.reply [
    | inl e ↦ rw e (format_num-Returns _ 0 tt (λ e. cc))
    | inr (r, e, hr) ↦ rw e (
        num-Returns (some r.upload_err)
          (IsCount-IsWithin (8 * n) (16 * n) r.upload_err (omega arith) hr.upload_err))
  ]

  pub rate_row :
      (suffix : Text) (x : Number)
      → IsWithin (16 * n) x
      → Returns (followed_by suffix (num (some (round x))))
  rate_row suffix x h =
      followed_by-Returns suffix _ (num-Returns (some (round x)) (round-IsWithin (16 * n) hn x h))

  pub bytes_row :
      (suffix : Text) (x : Number)
      → IsWithin (16 * n) x
      → Returns (followed_by suffix (bytes (some (round x))))
  bytes_row suffix x h =
      followed_by-Returns suffix _ (bytes-Returns (some (round x)) (round-IsWithin (16 * n) hn x h))

  error_row :
      (b : Bool) (label : Text) (c : Option Text) (row : Row)
      → Returns c
      → Returns row.1
      → Shows ((if b then (label, c) ∷ [] else []) ++ row ∷ [])
  error_row true label c row h h' = (h, (h', tt))
  error_row false label c row h h' = (h', tt)

  IsTame-Shows : (s : StagingTile) → IsTame s → Shows (staging_rows s)
  unfolding staging_rows
  IsTame-Shows s t =
      let requests =
        num-Returns _ (field-IsBounded (λ r. r.counters.read_reqs) s (λ r h. h.read_reqs) t) in
      let read =
        bytes-Returns _ (field-IsBounded (λ r. r.counters.read_bytes) s (λ r h. h.read_bytes) t) in
      let uploaded =
        bytes-Returns _
          (field-IsBounded (λ r. r.counters.upload_bytes) s (λ r h. h.upload_bytes) t) in
      let last =
        error_row _ _ _ _ (upload_err-Returns s t) (rate_row _ s.emas.redirects t.redirects) in
      (
        requests,
        (
          rate_row _ s.emas.read_reqs t.read_reqs,
          (
            bytes_row _ s.emas.read_bytes t.read_bytes,
            (read, (bytes_row _ s.emas.upload_bytes t.upload_bytes, (uploaded, (tt, last)))),
          ),
        ),
      )

  IsReply-cases :
      (o : List StagingStats)
      → All IsReply o
      → (last_of o ≡ none) ⊎ ((r : StagingStats) × (last_of o ≡ some r) × IsReply r)
  IsReply-cases [] a = inl refl
  IsReply-cases (r ∷ rs) (h, a) = inr (last_from r rs, refl, last_from-All IsReply r rs h a)

  polls-IsTame :
      (rs : List (Option StagingStats))
      → All IsReply (answered rs)
      → IsTame (polls staging_reply staging_start rs)
  polls-IsTame rs a =
      let (stats, emas) = polls-staging rs in
      record {
        reply = rw stats (IsReply-cases (answered rs) a);
        read_reqs = rw emas (
            rate-IsWithin _ (
              All-map IsReply (IsCount (8 * n)) (λ r. r.counters.read_reqs) (answered rs)
                (λ r h. h.read_reqs) a));
        read_bytes = rw emas (
            rate-IsWithin _ (
              All-map IsReply (IsCount (8 * n)) (λ r. r.counters.read_bytes) (answered rs)
                (λ r h. h.read_bytes) a));
        upload_bytes = rw emas (
            rate-IsWithin _ (
              All-map IsReply (IsCount (8 * n)) (λ r. r.counters.upload_bytes) (answered rs)
                (λ r h. h.upload_bytes) a));
        redirects = rw emas (
            rate-IsWithin _ (
              All-map IsReply (IsCount (8 * n)) (λ r. r.counters.redirects) (answered rs)
                (λ r h. h.redirects) a));
      }

  -- After any polls whose replies count in whole numbers up to 8 n, errors in between, every row of the
  -- staging table has a text: no formatter loops for ever on a rate.
  pub polls-Shows :
      (rs : List (Option StagingStats))
      → All IsReply (answered rs)
      → Shows (staging_rows (polls staging_reply staging_start rs))
  polls-Shows rs a = IsTame-Shows _ (polls-IsTame rs a)
