-- ===== src/Root/Routes.antt =====
-- The routes of index.js, and the router that react-router makes of them, a parameter: `createBrowserRouter`
-- with the location it is at. Its law is that of the documentation of react-router for paths of words
-- and of names behind ":", as all of index.js are, and for locations without escapes, a query, a
-- fragment and empty segments: one route alone fits, and it is the one that matches.
use mathlib.Core.Option
use ribs.Base.{
  ℕ, ◌+◌, ◌≡◌, refl, Bool, true, false, not, ◌&&◌, Option, none, some, List, [], ◌∷◌, map, Text,
  codes, text_eq, split, IsFree, All, leb, keep, ◌==◌, if◌then◌else◌,
}

pub data Element : Type 0 where
  status : Element
  groups : Element
  group : Element
  providers : Element
  provider : Element
  content : Element
  repair : Element

pub record Route : Type 0 where
  pub path : Text
  pub element : Element

-- The children of the route "/", whose element is the frame.
abbrev pub routes : List Route
routes =
    record { path = codes "/"; element = status }
    ∷ record { path = codes "groups"; element = groups }
    ∷ record { path = codes "groups/:groupKey"; element = group }
    ∷ record { path = codes "providers"; element = providers }
    ∷ record { path = codes "provider/:providerID"; element = provider }
    ∷ record { path = codes "content"; element = content }
    ∷ record { path = codes "repair"; element = repair }
    ∷ []

-- What `useParams` gives: names with their values.
abbrev pub Params : Type 0
Params = List (Text × Text)

abbrev pub param : Text → Params → Option Text
param name [] = none
param name ((n, value) ∷ ps) =
    let rest = param name ps in if text_eq n name then some value else rest

-- The segments of the path of a route. Slashes in front, behind and repeated count for nothing.
abbrev pub segments : Text → List Text
segments path = keep (λ t. not (text_eq t [])) (split b'/' path)

-- Those of a location, which begins with one slash; an empty segment stays one.
abbrev pub location_segments : Text → Option (List Text)
location_segments [] = none
location_segments (c ∷ []) = if c == b'/' then some [] else none
location_segments (c ∷ d ∷ t) = if c == b'/' then some (split b'/' (d ∷ t)) else none

abbrev lower_char : ℕ → ℕ
lower_char c = if leb b'A' c && leb c b'Z' then c + 32 else c

-- Words that are the same but for the case of their letters.
abbrev pub same_word : Text → Text → Bool
same_word s t = text_eq (map lower_char s) (map lower_char t)

-- The name of a segment ":name" of a route.
abbrev pub param_name : Text → Option Text
param_name [] = none
param_name (c ∷ name) = if c == b':' then some name else none

-- A segment of a route beside one of a location, before the rest. The value of a name is not empty.
abbrev pub fit_segment : Text → Text → Option Params → Option Params
fit_segment pattern t rest = elim (param_name pattern) [
  | some name ↦ (if text_eq t [] then none else Option.map (λ ps. (name, t) ∷ ps) rest)
  | none ↦ if same_word pattern t then rest else none
]

-- The parameters of a location that fits a route, both in segments.
abbrev pub fit : List Text → List Text → Option Params
fit [] [] = some []
fit [] (t ∷ ts) = none
fit (p ∷ ps) [] = none
fit (p ∷ ps) (t ∷ ts) = fit_segment p t (fit ps ts)

abbrev pub Match : Type 0
Match = Element × Params

-- The routes that a location in segments fits.
abbrev pub fits : List Route → List Text → List Match
fits [] ts = []
fits (r ∷ rs) ts =
    let rest = fits rs ts in
    elim (fit (segments r.path) ts) [ none ↦ rest | some ps ↦ (r.element, ps) ∷ rest ]

abbrev pub candidates : List Route → Text → List Match
candidates rs location = elim (location_segments location) [ none ↦ [] | some ts ↦ fits rs ts ]

abbrev letters : Text → Bool
letters [] = true
letters (c ∷ t) = let d = lower_char c in leb b'a' d && leb d b'z' && letters t

-- A word of letters, or a name of letters behind ":".
abbrev plain_segment : Text → Bool
plain_segment [] = false
plain_segment (c ∷ t) = if c == b':' then not (text_eq t []) && letters t else letters (c ∷ t)

abbrev pub IsPlain : Route → Type 0
IsPlain r = All (λ t. plain_segment t ≡ true) (segments r.path)

-- No escape, query or fragment.
abbrev pub IsBare : Text → Type 0
IsBare location = IsFree b'%' location × IsFree b'?' location × IsFree b'#' location

-- The router: a location that fits one route alone matches it.
pub record Router : Type 0 where
  pub match : List Route → Text → Option Match
  pub only :
      (rs : List Route) (location : Text) (m : Match)
      → All IsPlain rs
      → IsBare location
      → candidates rs location ≡ m ∷ []
      → match rs location ≡ some m

pub routes-IsPlain : All IsPlain routes
routes-IsPlain = (
  tt,
  (
    (refl, tt),
    ((refl, (refl, tt)), ((refl, tt), ((refl, (refl, tt)), ((refl, tt), ((refl, tt), tt))))),
  ),
)
