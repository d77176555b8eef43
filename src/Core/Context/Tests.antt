-- ===== src/Core/Context/Tests.antt =====
-- Tests of context.rs.
use gobrowseos.Prelude.{List, Ordering, is_gt, if◌then◌else◌, ◌≡◌, refl, true, false, [], ◌∷◌}
use gobrowseos.Core.Context.{ContextCandidate, profile, skill, select_from, build_context}

abbrev needed : ContextCandidate
needed = record {
  source = profile;
  stable_id = 1;
  content = "";
  token_estimate = 120;
  priority = 3;
  required = true;
  trust_label = "";
}

abbrev optional : ContextCandidate
optional = record needed { source = skill; stable_id = 2; required = false }

-- The candidates are in order.
build_context_test : (build_context (λ o cs. cs) (needed ∷ optional ∷ []) 100).omitted_ids ≡ 2 ∷ []
unfolding build_context select_from
build_context_test = refl

-- A sort by insertion.
abbrev insert_by :
    (ContextCandidate → ContextCandidate → Ordering)
    → ContextCandidate
    → List ContextCandidate
    → List ContextCandidate
insert_by order c [] = c ∷ []
insert_by order c (d ∷ ds) =
    let rest = insert_by order c ds in if is_gt (order c d) then d ∷ rest else c ∷ d ∷ ds

abbrev sort_by :
    (ContextCandidate → ContextCandidate → Ordering) → List ContextCandidate → List ContextCandidate
sort_by order [] = []
sort_by order (c ∷ cs) = insert_by order c (sort_by order cs)
