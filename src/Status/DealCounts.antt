-- ===== src/Status/DealCounts.antt =====
-- `DealCountsChart` of routes/Status.js: two lists of counts become one object by count. The keys are
-- whole numbers, so `Object.entries` gives them in ascending order.
use mathlib.Core.Path.{subst, ap₂}
use mathlib.Core.List.{foldl}
use ribs.Base.{
  ℕ, ◌<◌, ◌≡◌, refl, sym, ap, ◌∙◌, Option, none, some, List, [], ◌∷◌, map, arith, ltb, ltb→lt, inl,
  inr, Bool-cases, ==_iff, ◌==◌, if◌then◌else◌,
}

-- An element of the replies: `groups` groups have `count` deals.
pub record CountItem : Type 0 where
  pub count : ℕ
  pub groups : ℕ

-- A value of `allMap`; an absent property is undefined.
pub record Bars : Type 0 where
  pub retrievable : Option ℕ
  pub sealed : Option ℕ

abbrev pub no_bars : Bars
no_bars = record { retrievable = none; sealed = none }

-- An object with whole numbers as keys, in the order of `Object.entries`.
abbrev pub Entries : Type 0
Entries = List (ℕ × Bars)

abbrev pub lookup : ℕ → Entries → Option Bars
lookup k [] = none
lookup k ((j, v) ∷ m) = if j == k then some v else lookup k m

-- `acc[k] = v`
abbrev pub assign : ℕ → Bars → Entries → Entries
assign k v [] = (k, v) ∷ []
assign k v ((j, w) ∷ m) =
    let rest = assign k v m in
    if k == j then (k, v) ∷ m else if ltb k j then (k, v) ∷ (j, w) ∷ m else (j, w) ∷ rest

-- `{...acc[k]}`
abbrev pub spread : Option Bars → Bars
spread none = no_bars
spread (some v) = v

abbrev add_retrievable : Entries → CountItem → Entries
add_retrievable m item =
    assign item.count (record { retrievable = some item.groups; sealed = none }) m

abbrev add_sealed : Entries → CountItem → Entries
add_sealed m item =
    let bars = spread (lookup item.count m) in
    assign item.count (record bars { sealed = some item.groups }) m

-- `Object.fromEntries(...)`, then the `reduce` over the sealed counts.
unfoldable pub all_map : List CountItem → List CountItem → Entries
all_map retrievable_deal_counts sealed_deal_counts =
    foldl add_sealed (foldl add_retrievable [] retrievable_deal_counts) sealed_deal_counts

-- The rows of the chart: `name`, `Retrievable`, `Sealed`.
unfoldable pub chart_data : List CountItem → List CountItem → List (ℕ × Option ℕ × Option ℕ)
chart_data retrievable_deal_counts sealed_deal_counts =
    map (λ e. (e.0, e.1.retrievable, e.1.sealed))
      (all_map retrievable_deal_counts sealed_deal_counts)

-- The groups of the last item with a count.
abbrev pub last_groups : Option ℕ → ℕ → List CountItem → Option ℕ
last_groups found k [] = found
last_groups found k (item ∷ items) =
    last_groups (if item.count == k then some item.groups else found) k items

abbrev pub Above : ℕ → Entries → Type 0
Above k [] = Unit
Above k ((j, v) ∷ m) = (k < j) × Above j m

-- Strictly ascending keys.
abbrev pub IsAscending : Entries → Type 0
IsAscending [] = Unit
IsAscending ((j, v) ∷ m) = Above j m

lookup-assign :
    (k j : ℕ) (v : Bars) (m : Entries)
    → lookup j (assign k v m) ≡ (if k == j then some v else lookup j m)
lookup-assign k j v [] = refl
lookup-assign k j v ((i, w) ∷ m) = ground (arith, lookup-assign k j v m)

assign-Above : (k : ℕ) (v : Bars) (j : ℕ) (m : Entries) → j < k → Above j m → Above j (assign k v m)
assign-Above k v j [] h a = (h, tt)
assign-Above k v j ((i, w) ∷ m) h (lt, a) = elim (Bool-cases (k == i)) [
  | inl e ↦ rw e (h, subst (λ (x : ℕ). Above x m) (sym ((==_iff k i).0 e)) a)
  | inr e ↦ elim (Bool-cases (ltb k i)) [
    | inl f ↦ rw (e, f) (h, (ltb→lt k i f, a))
    | inr f ↦ rw (e, f) (lt, assign-Above k v i m (ground arith) a)
  ]
]

assign-IsAscending : (k : ℕ) (v : Bars) (m : Entries) → IsAscending m → IsAscending (assign k v m)
assign-IsAscending k v [] a = tt
assign-IsAscending k v ((i, w) ∷ m) a = elim (Bool-cases (k == i)) [
  | inl e ↦ rw e (subst (λ (x : ℕ). Above x m) (sym ((==_iff k i).0 e)) a)
  | inr e ↦ elim (Bool-cases (ltb k i)) [
    | inl f ↦ rw (e, f) (ltb→lt k i f, a)
    | inr f ↦ rw (e, f) (assign-Above k v i m (ground arith) a)
  ]
]

retrievable-lookup :
    (k : ℕ) (items : List CountItem) (m : Entries)
    → (spread (lookup k m)).sealed ≡ none
    → let m' = foldl add_retrievable m items in
      ((spread (lookup k m')).retrievable ≡ last_groups (spread (lookup k m)).retrievable k items)
      × ((spread (lookup k m')).sealed ≡ none)
retrievable-lookup k [] m h = (refl, h)
retrievable-lookup k (item ∷ items) m h = ground (
  arith,
  lookup-assign item.count k (record { retrievable = some item.groups; sealed = none }) m,
  retrievable-lookup k items (add_retrievable m item),
)

sealed-lookup :
    (k : ℕ) (items : List CountItem) (m : Entries)
    → let m' = foldl add_sealed m items in
      ((spread (lookup k m')).sealed ≡ last_groups (spread (lookup k m)).sealed k items)
      × ((spread (lookup k m')).retrievable ≡ (spread (lookup k m)).retrievable)
sealed-lookup k [] m = (refl, refl)
sealed-lookup k (item ∷ items) m =
    let bars = spread (lookup item.count m) in
    ground (
      arith,
      lookup-assign item.count k (record bars { sealed = some item.groups }) m,
      ap (λ (j : ℕ). (spread (lookup j m)).retrievable) {x = item.count} {y = k},
      sealed-lookup k items (add_sealed m item),
    )

foldl-IsAscending :
    (f : Entries → CountItem → Entries)
    → ((m : Entries) (item : CountItem) → IsAscending m → IsAscending (f m item))
    → (items : List CountItem) (m : Entries) → IsAscending m
    → IsAscending (foldl f m items)
foldl-IsAscending f keeps [] m a = a
foldl-IsAscending f keeps (item ∷ items) m a =
    foldl-IsAscending f keeps items (f m item) (keeps m item a)

all_map-IsAscending : (rs ss : List CountItem) → IsAscending (all_map rs ss)
unfolding all_map
all_map-IsAscending rs ss =
    foldl-IsAscending add_sealed (λ m item a. assign-IsAscending item.count _ m a) ss _
      (foldl-IsAscending add_retrievable (λ m item a. assign-IsAscending item.count _ m a) rs [] tt)

-- The rows of the chart.
abbrev pub Rows : Type 0
Rows = List (ℕ × Option ℕ × Option ℕ)

abbrev AboveRow : ℕ → Rows → Type 0
AboveRow k [] = Unit
AboveRow k (r ∷ rows) = (k < r.0) × AboveRow r.0 rows

abbrev pub RowsAscending : Rows → Type 0
RowsAscending [] = Unit
RowsAscending (r ∷ rows) = AboveRow r.0 rows

-- The two bars that the chart shows at a count; both are missing where it has no row.
abbrev pub bars_shown : ℕ → Rows → Option ℕ × Option ℕ
bars_shown k [] = (none, none)
bars_shown k (r ∷ rows) = if r.0 == k then (r.1, r.2) else bars_shown k rows

abbrev row : ℕ × Bars → ℕ × Option ℕ × Option ℕ
row e = (e.0, e.1.retrievable, e.1.sealed)

AboveRow-map : (k : ℕ) (m : Entries) → Above k m → AboveRow k (map row m)
AboveRow-map k [] a = tt
AboveRow-map k ((j, v) ∷ m) (lt, a) = (lt, AboveRow-map j m a)

RowsAscending-map : (m : Entries) → IsAscending m → RowsAscending (map row m)
RowsAscending-map [] a = tt
RowsAscending-map ((j, v) ∷ m) a = AboveRow-map j m a

bars_shown-map :
    (k : ℕ) (m : Entries)
    → bars_shown k (map row m) ≡ ((spread (lookup k m)).retrievable, (spread (lookup k m)).sealed)
bars_shown-map k [] = refl
bars_shown-map k ((j, v) ∷ m) = ground (arith, bars_shown-map k m)

-- The chart has one row for a count, in ascending order. At each count it shows the groups of the
-- last item with that count in the first reply as retrievable, and of the last one in the second
-- reply as sealed; what a reply does not have stays undefined, whatever the other one has.
pub chart_data-bars :
    (rs ss : List CountItem) (k : ℕ)
    → RowsAscending (chart_data rs ss)
      × (bars_shown k (chart_data rs ss) ≡ (last_groups none k rs, last_groups none k ss))
unfolding chart_data all_map
chart_data-bars rs ss k =
    let m = foldl add_retrievable [] rs in
    let (retrievable, none_sealed) = retrievable-lookup k rs [] refl in
    let (sealed, kept) = sealed-lookup k ss m in
    (
      RowsAscending-map (all_map rs ss) (all_map-IsAscending rs ss),
      bars_shown-map k (foldl add_sealed m ss)
          ∙ ap₂ (λ (a b : Option ℕ). (a, b)) (kept ∙ retrievable)
              (sealed ∙ ap (λ (o : Option ℕ). last_groups o k ss) none_sealed),
    )
