-- ===== src/Groups/Pages.antt =====
-- The pages of `Groups` (routes/Groups.js).
use mathlib.Core.Path.{ap₂}
use ribs.Base.{
  ℕ, zero, suc, ◌+◌, ◌-◌, ◌*◌, ◌/◌, ◌≤◌, ◌<◌, ◌≡◌, refl, sym, ap, ◌∙◌, min, Option, List, [], ◌∷◌,
  ◌++◌, arith, length, get_elem?, take, drop, take-append-drop, length-take, length-drop,
}

abbrev pub items_per_page : ℕ
items_per_page = 30

module _ {ℓ} {A : Type ℓ} where
  -- `Math.ceil(groupKeys.length / itemsPerPage)`
  unfoldable pub total_pages : List A → ℕ
  total_pages keys = (length keys + (items_per_page - 1)) / items_per_page

  -- `groupKeys.slice(currentPage * itemsPerPage, (currentPage + 1) * itemsPerPage)`
  unfoldable pub page : List A → ℕ → List A
  page keys current = take items_per_page (drop (current * items_per_page) keys)

  -- The page that the button at `index` selects, and the keys that it is labelled with.
  pub button_page : List A → ℕ → ℕ
  button_page keys index = total_pages keys - index - 1

  unfoldable pub button_label : List A → ℕ → Option A × Option A
  button_label keys index =
      let pages = total_pages keys in
      (
        get_elem? keys ((pages - index - 1) * items_per_page),
        get_elem? keys (min (length keys - 1) ((pages - index) * items_per_page - 1)),
      )

  -- The pages from `from` on, `count` of them, one after the other.
  abbrev pub shown : List A → ℕ → ℕ → List A
  shown keys from zero = []
  shown keys from (suc count) = page keys from ++ shown keys (from + 1) count

  drop-drop : (n m : ℕ) (xs : List A) → drop n (drop m xs) ≡ drop (m + n) xs
  drop-drop n zero xs = let e : 0 + n ≡ n = omega arith in rw e
  drop-drop zero (suc m) [] = let e : suc m + 0 ≡ suc m = omega arith in rw e
  drop-drop (suc n) (suc m) [] = let e : suc m + suc n ≡ suc (m + suc n) = omega arith in rw e
  drop-drop n (suc m) (x ∷ xs) =
      let e : suc m + n ≡ suc (m + n) = omega arith in rw e (drop-drop n m xs)

  drop-all : (n : ℕ) (xs : List A) → length xs ≤ n → drop n xs ≡ []
  drop-all zero [] h = refl
  drop-all (suc n) [] h = refl
  drop-all zero (x ∷ xs) h = absurd (omega arith)
  drop-all (suc n) (x ∷ xs) h = drop-all n xs (omega arith)

  shown-drop :
      (keys : List A) (count from : ℕ)
      → length keys ≤ (from + count) * items_per_page
      → shown keys from count ≡ drop (from * items_per_page) keys
  unfolding page
  shown-drop keys zero from h =
      let e : from + 0 ≡ from = omega arith in sym (drop-all (from * 30) keys (rw e at h))
  shown-drop keys (suc count) from h =
      let next : (from + 1) * 30 ≡ from * 30 + 30 = omega arith in
      rw (shown-drop keys count (from + 1) (omega arith), next, ← drop-drop 30 (from * 30) keys)
        (take-append-drop 30 (drop (from * 30) keys))

  get_elem?-take : (n : ℕ) (xs : List A) (i : ℕ) → i < n → get_elem? (take n xs) i ≡ get_elem? xs i
  get_elem?-take zero xs i h = absurd (omega arith)
  get_elem?-take (suc n) [] i h = refl
  get_elem?-take (suc n) (x ∷ xs) zero h = refl
  get_elem?-take (suc n) (x ∷ xs) (suc i) h = get_elem?-take n xs i (omega arith)

  get_elem?-drop : (m : ℕ) (xs : List A) (i : ℕ) → get_elem? (drop m xs) i ≡ get_elem? xs (m + i)
  get_elem?-drop zero xs i = let e : 0 + i ≡ i = omega arith in rw e
  get_elem?-drop (suc m) [] i = refl
  get_elem?-drop (suc m) (x ∷ xs) i =
      let e : suc m + i ≡ suc (m + i) = omega arith in rw e (get_elem?-drop m xs i)

  get_elem?-page :
      (keys : List A) (p i : ℕ)
      → i < items_per_page
      → get_elem? (page keys p) i ≡ get_elem? keys (p * items_per_page + i)
  unfolding page
  get_elem?-page keys p i h =
      get_elem?-take 30 (drop (p * 30) keys) i h ∙ get_elem?-drop (p * 30) keys i

  length-page : (keys : List A) (p : ℕ) → length (page keys p) ≡ min 30 (length keys - p * 30)
  unfolding page
  length-page keys p = omega (arith, length-take 30 (drop (p * 30) keys), length-drop (p * 30) keys)

  -- The pages together are the whole list, each group once and in order.
  pub shown-total_pages : (keys : List A) → shown keys 0 (total_pages keys) ≡ keys
  unfolding total_pages
  shown-total_pages keys = shown-drop keys (total_pages keys) 0 (omega arith)

  -- Every button stands for a page that is not empty, and is labelled with its first and last key.
  pub button_label-page :
      (keys : List A) (index : ℕ)
      → index < total_pages keys
      → let p = page keys (button_page keys index) in
        (0 < length p) × (button_label keys index ≡ (get_elem? p 0, get_elem? p (length p - 1)))
  unfolding total_pages button_page button_label
  button_label-page keys index h =
      let p : ℕ = (length keys + 29) / 30 - index - 1 in
      let size = length-page keys p in
      let first : p * 30 ≡ p * 30 + 0 = omega arith in
      let last : min (length keys - 1) (((length keys + 29) / 30 - index) * 30 - 1)
          ≡ p * 30 + (length (page keys p) - 1) =
        omega arith in
      (
        omega arith,
        ap₂ (λ (a b : Option A). (a, b))
            (ap (get_elem? keys) first ∙ sym (get_elem?-page keys p 0 (omega arith)))
            (ap (get_elem? keys) last
              ∙ sym (get_elem?-page keys p (length (page keys p) - 1) (omega arith))),
      )
