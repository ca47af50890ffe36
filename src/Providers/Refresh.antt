-- ===== src/Providers/Refresh.antt =====
-- The list of providers (routes/Providers.js) through the calls of helpers/rpc.js.
use mathlib.Core.List.{reverse}
use ribs.Base.{ℕ, ◌<◌, ◌≡◌, refl, ◌⊎◌, inl, inr, Option, none, some, List, [], Text, codes}
use ribs.Rpc.Retry.{Answer, ok, failed, waits, max_retries, Failing, ribs_attempt, call-IsFirst}
use ribs.Providers.Page.{Provider, fetch_providers, refresh}

-- The list after a reply.
abbrev pub listed_after : Option (List Provider) → List Provider → List Provider
listed_after none providers = providers
listed_after (some provider_data) providers = reverse provider_data

module _ {E : Type 0} (server : ℕ → Text → List ℕ → Answer (Option (List Provider)) E) where
  -- Attempt `i` to ask the node for the providers.
  abbrev pub attempt : ℕ → Answer (Option (List Provider)) E
  attempt = ribs_attempt server (codes "ReachableProviders") []

  -- Whatever the node answers: the first of five attempts that succeeds, after a second for each that
  -- failed before it, gives the list from its last provider to its first, or leaves the list if it is
  -- null; and if all five fail, the list is left as it is, after four waits.
  pub refresh-listed :
      (providers : List Provider)
      → ((k : ℕ) × (reply : Option (List Provider)) × (k < max_retries)
          × Failing attempt 0 k
          × (attempt k ≡ ok reply)
          × (refresh server providers ≡ (listed_after reply providers, waits k)))
        ⊎ ((e : E) × Failing attempt 0 4
            × (attempt 4 ≡ failed e)
            × (refresh server providers ≡ (providers, waits 4)))
  unfolding refresh fetch_providers
  refresh-listed providers = elim (call-IsFirst server (codes "ReachableProviders") []).0 [
    | inl (k, none, lt, f, e, r) ↦ inl (k, none, lt, f, e, rw r refl)
    | inl (k, some rows, lt, f, e, r) ↦ inl (k, some rows, lt, f, e, rw r refl)
    | inr (x, f, e, r) ↦ inr (x, f, e, rw r refl)
  ]
