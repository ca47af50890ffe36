-- ===== src/Status/UploadRates.antt =====
-- What `calcRates` shows of each group (routes/Status.js).
use ribs.Base.{
  ℕ, ◌≡◌, ◌≢◌, refl, ◌∙◌, inl, inr, Option, none, some, List, [], ◌∷◌, arith, ◌==◌, ==_ne, ==_iff,
  ==_self, Option-cases, Bool-cases,
}
use mathlib.Core.Option.{some-injective}
use mathlib.Core.Path.{subst}
use ribs.Number.Defs.{Number, or_zero, or_nan, round}
use ribs.Status.Meter.{meter}
use ribs.Status.Upload.{
  lookup, insert, lookup-insert, UploadStats, UploadShown, Loop, rate_group, rate_groups,
  CarUploadStats, UploadTile, calc_rates,
}

-- No group stands twice in an object.
abbrev pub Fresh {ℓ} : {V : Type ℓ} → ℕ → List (ℕ × V) → Type 0
Fresh k [] = Unit
Fresh k (e ∷ es) = (e.0 ≢ k) × Fresh k es

abbrev pub IsObject {ℓ} : {V : Type ℓ} → List (ℕ × V) → Type 0
IsObject [] = Unit
IsObject (e ∷ es) = Fresh e.0 es × IsObject es

-- What the tile will show of a group that has `stats` now and had `before` bytes.
abbrev pub shown_of : UploadStats → Number → Option Number → UploadShown
shown_of stats before ema = record {
  stats = stats;
  upload_rate = round (meter stats.upload_bytes before (or_zero (or_nan ema)));
}

pub lookup-insert_ne {ℓ} :
    {V : Type ℓ} (k j : ℕ) (v : V) (m : List (ℕ × V)) → k ≢ j → lookup j (insert k v m) ≡ lookup j m
lookup-insert_ne k j v m ne = lookup-insert k j v m ∙ (rw (==_ne k j ne))

pub lookup-insert_self {ℓ} :
    {V : Type ℓ} (k : ℕ) (v : V) (m : List (ℕ × V)) → lookup k (insert k v m) ≡ some v
lookup-insert_self k v m = lookup-insert k k v m ∙ (rw (==_self k))

-- Two states of the loop know the same of a group.
abbrev SameAt : ℕ → Loop → Loop → Type 0
SameAt k s t =
    (lookup k s.prev ≡ lookup k t.prev)
    × (lookup k s.emas ≡ lookup k t.emas)
    × (lookup k s.display ≡ lookup k t.display)

rate_group-ne :
    (s : Loop) (j : ℕ) (stats : UploadStats) (k : ℕ) → j ≢ k → SameAt k (rate_group s (j, stats)) s
unfolding rate_group
rate_group-ne s j stats k ne = elim (Option-cases (lookup j s.prev)) [
  | inl e ↦ rw (e, rate_group) (lookup-insert_ne j k _ s.prev ne, refl, refl)
  | inr (b, e) ↦
      rw (e, rate_group)
        (
          lookup-insert_ne j k _ s.prev ne,
          lookup-insert_ne j k _ s.emas ne,
          lookup-insert_ne j k _ s.display ne,
        )
]

-- A group that the object does not have is left alone.
rate_groups-Fresh :
    (es : List (ℕ × UploadStats)) (s : Loop) (k : ℕ) → Fresh k es → SameAt k (rate_groups s es) s
unfolding rate_groups
rate_groups-Fresh [] s k f = (refl, refl, refl)
rate_groups-Fresh ((j, stats) ∷ es) s k (ne, f) =
    let (p, e, d) = rate_groups-Fresh es (rate_group s (j, stats)) k f in
    let (p', e', d') = rate_group-ne s j stats k ne in (p ∙ p', e ∙ e', d ∙ d')

-- What the display holds of a group after its round.
abbrev pub shown_after :
    UploadStats → Option Number → Option Number → Option UploadShown → Option UploadShown
shown_after stats none ema old = old
shown_after stats (some before) ema old = some (shown_of stats before ema)

-- The average that the tile keeps of a group after its round.
abbrev pub ema_after : UploadStats → Option Number → Option Number → Option Number
ema_after stats none ema = ema
ema_after stats (some before) ema = some (meter stats.upload_bytes before (or_zero (or_nan ema)))

rate_group_self :
    (s : Loop) (k : ℕ) (stats : UploadStats)
    → let s' = rate_group s (k, stats) in
      (lookup k s'.prev ≡ some stats.upload_bytes)
      × (lookup k s'.display
          ≡ shown_after stats (lookup k s.prev) (lookup k s.emas) (lookup k s.display))
      × (lookup k s'.emas ≡ ema_after stats (lookup k s.prev) (lookup k s.emas))
unfolding rate_group
rate_group_self s k stats = elim (Option-cases (lookup k s.prev)) [
  | inl e ↦ rw (e, rate_group) (lookup-insert_self k _ s.prev, refl, refl)
  | inr (b, e) ↦
      rw (e, rate_group)
        (
          lookup-insert_self k _ s.prev,
          lookup-insert_self k _ s.display,
          lookup-insert_self k _ s.emas,
        )
]

-- What a run of the loop that starts in `s` and ends in `s'` does for a group.
abbrev IsRated : ℕ → UploadStats → Loop → Loop → Type 0
IsRated k stats s s' =
    (lookup k s'.prev ≡ some stats.upload_bytes)
    × (lookup k s'.display
        ≡ shown_after stats (lookup k s.prev) (lookup k s.emas) (lookup k s.display))
    × (lookup k s'.emas ≡ ema_after stats (lookup k s.prev) (lookup k s.emas))

rate_groups-here :
    (es : List (ℕ × UploadStats)) (s : Loop) (k : ℕ) (stats : UploadStats)
    → Fresh k es
    → IsRated k stats s (rate_groups s ((k, stats) ∷ es))
unfolding rate_groups
rate_groups-here es s k stats f =
    let (p, e, d) = rate_groups-Fresh es (rate_group s (k, stats)) k f in
    let (p', d', e') = rate_group_self s k stats in (p ∙ p', d ∙ d', e ∙ e')

rate_groups-there :
    (es : List (ℕ × UploadStats)) (s : Loop) (j : ℕ) (now : UploadStats) (k : ℕ)
    (stats : UploadStats)
    → j ≢ k
    → IsRated k stats (rate_group s (j, now)) (rate_groups (rate_group s (j, now)) es)
    → IsRated k stats s (rate_groups s ((j, now) ∷ es))
unfolding rate_groups
rate_groups-there es s j now k stats ne (p, d, a) =
    let (p', e', d') = rate_group-ne s j now k ne in
    (p, d ∙ (rw (p', e', d') refl), a ∙ (rw (p', e') refl))

rate_groups-at :
    (es : List (ℕ × UploadStats)) (s : Loop) (k : ℕ) {stats : UploadStats}
    → IsObject es
    → lookup k es ≡ some stats
    → IsRated k stats s (rate_groups s es)
rate_groups-at [] s k o h = absurd cc
rate_groups-at ((j, now) ∷ es) s k {stats} (f, o) h = elim (Bool-cases (j == k)) [
  | inl e ↦
      let q : j ≡ k = (==_iff j k).0 e in
      let same : now ≡ stats = some-injective _ _ (rw e at h) in
      subst (λ i. IsRated k i s (rate_groups s ((j, now) ∷ es))) same
        (subst (λ i. IsRated i now s (rate_groups s ((j, now) ∷ es))) q
          (rate_groups-here es s j now f))
  | inr e ↦
      rate_groups-there es s j now k stats (λ q. absurd (grind arith))
        (rate_groups-at es (rate_group s (j, now)) k o (rw e at h))
]

-- After `calcRates`, for each group of a `ByGroup` that has each of its keys once: the bytes that the
-- tile keeps of the group are the ones it has now; the display has no line for it and its average stays
-- when the tile had no bytes of it, and otherwise the tile keeps the average of its rate, which starts
-- at zero when it knew none, and the display has its numbers with that average, rounded.
pub calc_rates-shown :
    (props : CarUploadStats) (rate : Number) (last : Option Number) (s : UploadTile)
    (groups : List (ℕ × UploadStats)) (k : ℕ) {stats : UploadStats}
    → props.by_group ≡ some groups
    → IsObject groups
    → lookup k groups ≡ some stats
    → let s' = calc_rates props rate last s in
      (lookup k s'.prev ≡ some stats.upload_bytes)
      × (lookup k s'.display_stats ≡ shown_after stats (lookup k s.prev) (lookup k s.emas) none)
      × (lookup k s'.emas ≡ ema_after stats (lookup k s.prev) (lookup k s.emas))
unfolding calc_rates
calc_rates-shown props rate last s groups k e o h =
    rw e (rate_groups-at groups (record { prev = s.prev; emas = s.emas; display = [] }) k o h)
