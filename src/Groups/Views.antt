-- ===== src/Groups/Views.antt =====
-- What a group shows of itself (routes/Groups.js and routes/Group.js). A text is none where a formatter
-- does not return.
use mathlib.Core.Option
use ribs.Base.{
  ℕ, Bool, Option, none, some, List, [], ◌∷◌, ◌++◌, Text, codes, decimal, length, get_elem?, ltb,
  if◌then◌else◌,
}
use ribs.Number.Defs.{Number, of_ℕ, mul, div}
use ribs.Number.Print.{to_text}
use ribs.Groups.Deals.{DealCounts, deal_counts}
use ribs.Groups.Polling.{Meta, GroupData, has_state, group_state_writable}
use ribs.Status.Cells.{num, bytes, field}

-- `groupStateText`
abbrev pub group_state_text : List Text
group_state_text =
    codes "Writable"
    ∷ codes "Full"
    ∷ codes "VRCAR Done"
    ∷ codes "Deals in Progress"
    ∷ codes "Offloaded"
    ∷ codes "Reload"
    ∷ []

-- `groupStateText[group.State]`: nothing for another state, and before the first reply.
unfoldable pub state_text : GroupData → Text
state_text g = elim g.info [
  | none ↦ []
  | some m ↦ elim (get_elem? group_state_text m.state) [ none ↦ [] | some t ↦ t ]
]

-- The width of `renderProgressBar`, in percent.
unfoldable pub render_progress_bar : Number → Number → Number
render_progress_bar bytes max_bytes = mul (div bytes max_bytes) (of_ℕ 100)

-- Two texts with `between` between them, where both are there.
abbrev pub both : Text → Option Text → Option Text → Option Text
both between none b = none
both between (some a) b = Option.map (λ t. a ++ (between ++ t)) b

-- The deal counts that are not zero.
unfoldable pub counts_text : DealCounts → Text
counts_text c =
    (if ltb 0 c.sealed then decimal c.sealed ++ codes " Sealed | " else [])
    ++ ((if ltb 0 c.started then decimal c.started ++ codes " Started | " else [])
        ++ (if ltb 0 c.errors then decimal c.errors ++ codes " Errored" else []))

pub record GroupView : Type 0 where
  pub heading : Text
  pub state : Text
  pub blocks : Option Text
  pub blocks_bar : Option Number
  pub bytes : Option Text
  pub bytes_bar : Option Number
  pub counts : Text

abbrev pub of_field : (Meta → ℕ) → GroupData → Option Number
of_field f g = field (λ m. of_ℕ (f m)) g.info

abbrev pub bar : (Meta → ℕ) → (Meta → ℕ) → GroupData → Option Number
bar part total g =
    if has_state g group_state_writable
    then elim g.info [
      | none ↦ none
      | some m ↦ some (render_progress_bar (of_ℕ (part m)) (of_ℕ (total m)))
    ]
    else none

unfoldable pub group_view : GroupData → GroupView
unfolding state_text render_progress_bar counts_text
group_view g = record {
  heading = codes "Group " ++ (elim g.group_key [ none ↦ [] | some k ↦ decimal k ]);
  state = state_text g;
  blocks =
      both (codes " / ") (num (of_field (λ m. m.blocks) g)) (num (of_field (λ m. m.max_blocks) g));
  blocks_bar = bar (λ m. m.blocks) (λ m. m.max_blocks) g;
  bytes =
      both (codes " / ") (bytes (of_field (λ m. m.bytes) g))
        (bytes (of_field (λ m. m.max_bytes) g));
  bytes_bar = bar (λ m. m.bytes) (λ m. m.max_bytes) g;
  counts = counts_text (deal_counts g.deals);
}

-- The button for the failed deals; none while there are no deals.
unfoldable pub toggle_label : Bool → GroupData → Option Text
toggle_label show_failed_deals g =
    if ltb 0 (length g.deals)
    then some ((if show_failed_deals then codes "Hide" else codes "Show") ++ codes " Failed Deals")
    else none

-- A text of the reply to "GroupMeta", as JSX shows it and as a template string prints it.
abbrev pub of_meta : (Meta → Text) → Text → Option Meta → Text
of_meta f undefined none = undefined
of_meta f undefined (some m) = f m

-- The address that "More" leads to.
abbrev pub group_link : ℕ → Text
group_link group_key = codes "/groups/" ++ to_text (of_ℕ group_key)
