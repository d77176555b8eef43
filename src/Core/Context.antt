-- ===== src/Core/Context.antt =====
-- crates/gobrowse-core/src/context.rs: which candidates enter the context of a run. A stable identifier
-- is a number that orders as the string does. `sort_by` is a parameter, given the comparison.
pub mod Budget
mod Tests
use Prim.Native.String.{String}
use gobrowseos.Prelude.{
  ℕ, Bool, true, false, List, [], ◌∷◌, ◌||◌, leb, if◌then◌else◌, compare, Ordering, then_with,
  saturating_add32,
}

pub data ContextSource : Type 0 where
  system_policy profile active_task recent_conversation pinned_book : ContextSource
  library_retrieval autobiography skill worktree tool_schema compaction_summary : ContextSource

pub record ContextCandidate : Type 0 where
  pub source : ContextSource
  pub stable_id : ℕ
  pub content : String
  pub token_estimate : ℕ
  pub priority : ℕ
  pub required : Bool
  pub trust_label : String

pub record BuiltContext : Type 0 where
  pub selected : List ContextCandidate
  pub omitted_ids : List ℕ
  pub used_tokens : ℕ
  pub budget : ℕ

abbrev pub bool_number : Bool → ℕ
bool_number false = 0
bool_number true = 1

-- Required candidates first, then by falling priority, then by identifier.
abbrev pub candidate_order : ContextCandidate → ContextCandidate → Ordering
candidate_order left right =
    then_with (compare (bool_number right.required) (bool_number left.required))
      (then_with (compare right.priority left.priority) (compare left.stable_id right.stable_id))

-- The loop, from what is used so far.
unfoldable pub select_from : ℕ → ℕ → List ContextCandidate → BuiltContext
select_from budget used [] = record {
  selected = [];
  omitted_ids = [];
  used_tokens = used;
  budget = budget;
}
select_from budget used (c ∷ cs) =
    let total = saturating_add32 used c.token_estimate in
    let takes = leb total budget || c.required in
    let rest = select_from budget (if takes then total else used) cs in
    if takes
    then record rest { selected = c ∷ rest.selected }
    else record rest { omitted_ids = c.stable_id ∷ rest.omitted_ids }

module _
    (sort_by : (ContextCandidate → ContextCandidate → Ordering)
      → List ContextCandidate
      → List ContextCandidate) where
  unfoldable pub build_context : List ContextCandidate → ℕ → BuiltContext
  build_context candidates budget = select_from budget 0 (sort_by candidate_order candidates)
