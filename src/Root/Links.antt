-- ===== src/Root/Links.antt =====
-- The links of the app to its own pages, followed through the routes of index.js: those of
-- routes/Root.js, of routes/Groups.js, of routes/Providers.js and of routes/Repair.js.
use mathlib.Core.Option
use ribs.Base.{
  ℕ, ◌<◌, ◌≡◌, ◌≢◌, refl, ap, true, some, [], ◌∷◌, ◌++◌, map, All, All-append, arith, Text, codes,
  decimal, split-IsFree, IsFree, is_free, is_free-IsFree,
}
use ribs.Number.Rounding.{significands}
use ribs.Number.Exact.{whole, of_ℕ-whole}
use ribs.Number.Numerals.{
  All-decimal, digits-avoid, digits-IsFree, decimal-ne-nil, parse_int_text-decimal,
}
use ribs.Number.Print.{to_text}
use ribs.Fmt.Times.{to_text-whole}
use ribs.Groups.Deals.{DealInfo}
use ribs.Groups.Views.{group_link}
use ribs.Groups.Rows.{deal_provider_link}
use ribs.GroupPage.Page.{group_key_of}
use ribs.Providers.Page.{Provider}
use ribs.Providers.Rows.{provider_link}
use ribs.ProviderPage.Page.{provider_number}
use ribs.Root.Frame.{format_path, nav_items}
use ribs.Root.Routes.{
  Element, status, groups, group, providers, provider, content, repair, Params, Match, param,
  routes, Router, candidates, fits, IsBare, routes-IsPlain, same_word,
}

bare : (t : Text) → is_free b'%' t ≡ true → is_free b'?' t ≡ true → is_free b'#' t ≡ true → IsBare t
bare t escape query fragment =
    (is_free-IsFree b'%' t escape, is_free-IsFree b'?' t query, is_free-IsFree b'#' t fragment)

decimal-IsBare : (n : ℕ) → IsBare (decimal n)
decimal-IsBare n = (
  digits-IsFree b'%' (decimal n) (omega arith) (All-decimal n),
  digits-avoid b'?' (decimal n) (omega arith) (All-decimal n),
  digits-IsFree b'#' (decimal n) (omega arith) (All-decimal n),
)

IsBare-append : (s t : Text) → IsBare s → IsBare t → IsBare (s ++ t)
IsBare-append s t (e, q, f) (e', q', f') = (
  All-append (λ x. x ≢ b'%') s t e e',
  All-append (λ x. x ≢ b'?') s t q q',
  All-append (λ x. x ≢ b'#') s t f f',
)

decimal-IsFree : (n : ℕ) → IsFree b'/' (decimal n)
decimal-IsFree n = digits-IsFree b'/' (decimal n) (omega arith) (All-decimal n)

candidates-group :
    (t : Text)
    → t ≢ []
    → IsFree b'/' t
    → candidates routes (codes "/groups/" ++ t) ≡ (group, (codes "groupKey", t) ∷ []) ∷ []
candidates-group [] ne free = absurd (ne refl)
candidates-group (c ∷ t) ne free =
    ap (λ ts. fits routes (codes "groups" ∷ ts)) (split-IsFree b'/' (c ∷ t) free)

candidates-provider :
    (t : Text)
    → t ≢ []
    → IsFree b'/' t
    → candidates routes (codes "/provider/" ++ t) ≡ (provider, (codes "providerID", t) ∷ []) ∷ []
candidates-provider [] ne free = absurd (ne refl)
candidates-provider (c ∷ t) ne free =
    ap (λ ts. fits routes (codes "provider" ∷ ts)) (split-IsFree b'/' (c ∷ t) free)

candidates_key :
    (n : ℕ)
    → candidates routes (codes "/groups/" ++ decimal n)
      ≡ (group, (codes "groupKey", decimal n) ∷ []) ∷ []
candidates_key n = candidates-group (decimal n) (decimal-ne-nil n) (decimal-IsFree n)

candidates_id :
    (n : ℕ)
    → candidates routes (codes "/provider/" ++ (codes "f0" ++ decimal n))
      ≡ (provider, (codes "providerID", codes "f0" ++ decimal n) ∷ []) ∷ []
candidates_id n =
    candidates-provider (codes "f0" ++ decimal n) (λ e. cc)
      ((λ e. absurd (omega arith)), ((λ e. absurd (omega arith)), decimal-IsFree n))

IsBare-key : (n : ℕ) → IsBare (codes "/groups/" ++ decimal n)
IsBare-key n =
    IsBare-append (codes "/groups/") (decimal n) (bare (codes "/groups/") refl refl refl)
      (decimal-IsBare n)

IsBare-id : (n : ℕ) → IsBare (codes "/provider/f0" ++ decimal n)
IsBare-id n =
    IsBare-append (codes "/provider/f0") (decimal n) (bare (codes "/provider/f0") refl refl refl)
      (decimal-IsBare n)

module _ (r : Router) where
  opens :
      (location : Text) (m : Match)
      → IsBare location
      → candidates routes location ≡ m ∷ []
      → r.match routes location ≡ some m
  opens location m free e = r.only routes location m routes-IsPlain free e

  opens_item :
      (location : Text) (e : Element)
      → IsBare location
      → candidates routes location ≡ (e, []) ∷ []
      → r.match routes location ≡ some (e, [])
  opens_item location e free c = opens location (e, []) free c

  -- The links beside every page lead to the status of the node, the groups, the providers, the search
  -- and the repairs, in this order; and at the address of each, the head of the page reads as the text
  -- of its link, but for the case of letters.
  pub nav_items-open :
      (map (λ i. r.match routes i.0) nav_items
        ≡ map (λ e. some (e, [])) (status ∷ groups ∷ providers ∷ content ∷ repair ∷ []))
      × All (λ i. same_word (format_path i.0) i.1 ≡ true) nav_items
  unfolding format_path
  nav_items-open = (
    rw
        (
          opens_item (codes "/") status (bare (codes "/") refl refl refl) refl,
          opens_item (codes "/groups") groups (bare (codes "/groups") refl refl refl) refl,
          opens_item (codes "/providers") providers (bare (codes "/providers") refl refl refl) refl,
          opens_item (codes "/content") content (bare (codes "/content") refl refl refl) refl,
          opens_item (codes "/repair") repair (bare (codes "/repair") refl refl refl) refl,
        )
        refl,
    (refl, (refl, (refl, (refl, (refl, tt))))),
  )

  -- A link to a group, of its card and of a worker that repairs it, leads to the page of a group, and
  -- that page asks the node for this group, for keys below 2 ^ 53.
  pub group_link-opens :
      (key : ℕ)
      → key < significands
      → (ps : Params) × (r.match routes (group_link key) ≡ some (group, ps))
        × (Option.map group_key_of (param (codes "groupKey") ps) ≡ some (whole key))
  unfolding group_key_of
  group_link-opens key h =
      let ps = (codes "groupKey", decimal key) ∷ [] in
      (
        ps,
        rw (of_ℕ-whole key h, to_text-whole key h)
            (opens (codes "/groups/" ++ decimal key) (group, ps) (IsBare-key key)
              (candidates_key key)),
        ap some (parse_int_text-decimal key h),
      )

  -- A row of the list of providers and a deal with the same provider have the same link, which leads
  -- to the page of a provider, and that page asks the node for this provider, whose id is a whole
  -- number below 2 ^ 53.
  pub provider_link-opens :
      (p : Provider) (d : DealInfo)
      → d.provider < significands
      → p.id ≡ whole d.provider
      → (deal_provider_link d ≡ provider_link p)
        × ((ps : Params) × (r.match routes (provider_link p) ≡ some (provider, ps))
            × (Option.map provider_number (param (codes "providerID") ps) ≡ some p.id))
  unfolding provider_number
  provider_link-opens p d h e =
      let n = d.provider in
      let ps = (codes "providerID", codes "f0" ++ decimal n) ∷ [] in
      (
        rw (e, of_ℕ-whole n h, to_text-whole n h) refl,
        (
          ps,
          rw (e, to_text-whole n h)
              (opens (codes "/provider/f0" ++ decimal n) (provider, ps) (IsBare-id n)
                (candidates_id n)),
          rw e (ap some (parse_int_text-decimal n h)),
        ),
      )

  -- An address that some route matches.
  abbrev pub IsRouted : Text → Type 0
  IsRouted address = (m : Match) × (r.match routes address ≡ some m)

  pub nav_items-IsRouted : All (λ i. IsRouted i.0) nav_items
  nav_items-IsRouted = (
    ((status, []), opens_item (codes "/") status (bare (codes "/") refl refl refl) refl),
    (
      (
        (groups, []),
        opens_item (codes "/groups") groups (bare (codes "/groups") refl refl refl) refl,
      ),
      (
        (
          (providers, []),
          opens_item (codes "/providers") providers (bare (codes "/providers") refl refl refl) refl,
        ),
        (
          (
            (content, []),
            opens_item (codes "/content") content (bare (codes "/content") refl refl refl) refl,
          ),
          (
            (
              (repair, []),
              opens_item (codes "/repair") repair (bare (codes "/repair") refl refl refl) refl,
            ),
            tt,
          ),
        ),
      ),
    ),
  )

  pub group_link-IsRouted : (key : ℕ) → key < significands → IsRouted (group_link key)
  group_link-IsRouted key h = let (ps, e, _) = group_link-opens key h in ((group, ps), e)

  -- The address of a provider whose id is a whole number below 2 ^ 53.
  provider_address-IsRouted :
      (n : ℕ)
      → n < significands
      → IsRouted (codes "/provider/" ++ (codes "f0" ++ to_text (whole n)))
  provider_address-IsRouted n h =
      let ps = (codes "providerID", codes "f0" ++ decimal n) ∷ [] in
      (
        (provider, ps),
        rw (to_text-whole n h) (
            opens (codes "/provider/f0" ++ decimal n) (provider, ps) (IsBare-id n)
              (candidates_id n)),
      )

  pub deal_provider_link-IsRouted :
      (d : DealInfo) → d.provider < significands → IsRouted (deal_provider_link d)
  deal_provider_link-IsRouted d h =
      rw (of_ℕ-whole d.provider h) (provider_address-IsRouted d.provider h)

  pub provider_link-IsRouted :
      (p : Provider) (n : ℕ) → n < significands → p.id ≡ whole n → IsRouted (provider_link p)
  provider_link-IsRouted p n h e = rw e (provider_address-IsRouted n h)
