-- ===== src/Markup/Content.antt =====
-- The markup of routes/Content.js.
use mathlib.Core.Path.{subst}
use ribs.Base.{
  All-append, ℕ, suc, ◌≡◌, refl, Bool-cases, inl, inr, Option, Option-cases, none, some, List, [],
  ◌∷◌, ◌++◌, Text, codes, decimal, All,
}
use ribs.Number.Defs.{of_ℕ}
use ribs.Fmt.Dates.{Dates}
use ribs.Content.Page.{
  Item, named, card, Results, nothing, not_found, found, Page, shown_results, items, is_expanded,
}
use ribs.Markup.Html.{
  Html, blank, text, element, ◌&◌, optional, each, links, tables, optional-IsPlain, tables-each,
}
use ribs.Markup.Groups.{
  Cards, IsLinked, keyed_card_html, keyed_card_html-links, keyed_card_html-tables,
}

-- The groups that the page lists.
abbrev pub listed_ids : Option (List ℕ) → List ℕ
listed_ids none = []
listed_ids (some ids) = ids

-- The error below the results.
abbrev pub message_html : Text → Html
message_html message =
    element (codes "div")
      (element (codes "h2") (text (codes "Error")) & element (codes "div") (text message))

module _ (dates : Dates) (cards : Cards) where
  abbrev pub item_html : Item → Html
  item_html (named id) = element (codes "li") (text (codes "Group " ++ decimal id))
  item_html (card id head_height cid) =
      element (codes "li") (keyed_card_html dates (of_ℕ head_height) cid cards id)

  -- What stands under the search field.
  abbrev pub results_html : Results → Html
  results_html nothing = blank
  results_html not_found = element (codes "div") (element (codes "h2") (text (codes "Not Found")))
  results_html (found cid shown) = element (codes "div") (
      element (codes "h2") (text (codes "Group IDs"))
      & element (codes "div") (text (codes "CID: ") & element (codes "code") (text cid))
      & element (codes "ul") (each item_html shown))

  -- `Content`
  abbrev pub content_html : Page → Html
  content_html p = element (codes "div") (
      element (codes "div") (element (codes "h1") (text (codes "Inspect Content")))
      & element (codes "div")
          (element (codes "button") (text (codes "Find")) & element (codes "input") blank)
      & results_html (shown_results p)
      & optional message_html p.error)

  module _ (P : Text → Type 0) where
    items-links :
        (p : Page) (index : ℕ) (ids : List ℕ)
        → All (IsLinked P cards) ids
        → All P (links (each item_html (items p index ids)))
    unfolding items
    items-links p index [] a = tt
    items-links p index (id ∷ ids) (h, a) =
        let rest = items-links p (suc index) ids a in
        elim (Bool-cases (is_expanded p index)) [
          | inl e ↦ rw e (
              All-append P _ _ (keyed_card_html-links P dates (of_ℕ p.head_height) p.cid cards id h)
                rest)
          | inr e ↦ rw e rest
        ]

    results_html-links :
        (p : Page)
        → All (IsLinked P cards) (listed_ids p.group_ids)
        → All P (links (results_html (shown_results p)))
    unfolding shown_results items
    results_html-links p a = elim (Option-cases p.group_ids) [
      | inl e ↦ rw e tt
      | inr ([], e) ↦ rw e tt
      | inr (id ∷ ids, e) ↦
          rw e (items-links p 0 (id ∷ ids) (subst (λ o. All (IsLinked P cards) (listed_ids o)) e a))
    ]

    -- The links of the page are those of its open card.
    pub content_html-links :
        (p : Page)
        → All (IsLinked P cards) (listed_ids p.group_ids)
        → All P (links (content_html p))
    content_html-links p a =
        let (e, _) = optional-IsPlain message_html p.error (λ m. (refl, refl)) in
        All-append P (links (results_html (shown_results p)))
          (links (optional message_html p.error)) (results_html-links p a) (rw e tt)

  item_html-tables : (i : Item) → tables (item_html i) ≡ []
  item_html-tables (named id) = refl
  item_html-tables (card id head_height cid) =
      keyed_card_html-tables dates (of_ℕ head_height) cid cards id

  results_html-tables : (r : Results) → tables (results_html r) ≡ []
  results_html-tables nothing = refl
  results_html-tables not_found = refl
  results_html-tables (found cid shown) = rw (tables-each item_html shown item_html-tables) refl

  pub content_html-tables : (p : Page) → tables (content_html p) ≡ []
  content_html-tables p =
      let (_, e) = optional-IsPlain message_html p.error (λ m. (refl, refl)) in
      rw (results_html-tables (shown_results p), e) refl
