-- ===== src/Core/Context/Budget.antt =====
-- crates/gobrowse-core/src/context.rs: the tokens of a built context.
use gobrowseos.Prelude.{
  ℕ, is_gt, ◌+◌, ◌≡◌, refl, Bool, true, ◌&&◌, not, List, [], ◌∷◌, if◌then◌else◌, arith, Ordering,
}
use gobrowseos.Core.Context.{ContextCandidate}

-- The tokens of the required candidates.
abbrev pub required_tokens : List ContextCandidate → ℕ
required_tokens [] = 0
required_tokens (c ∷ cs) = (if c.required then c.token_estimate else 0) + required_tokens cs

abbrev pub total_tokens : List ContextCandidate → ℕ
total_tokens [] = 0
total_tokens (c ∷ cs) = c.token_estimate + total_tokens cs

abbrev pub none_required : List ContextCandidate → Bool
none_required [] = true
none_required (c ∷ cs) = not c.required && none_required cs

-- No required candidate stands behind an optional one.
abbrev pub required_first : List ContextCandidate → Bool
required_first [] = true
required_first (c ∷ cs) = if c.required then required_first cs else none_required cs

none_required-required_first :
    (cs : List ContextCandidate) → none_required cs ≡ true → required_first cs ≡ true
none_required-required_first [] h = refl
none_required-required_first (c ∷ cs) h = ground (arith, none_required-required_first cs)

-- Each candidate stands before the next one, or the comparison takes them for equal.
abbrev pub is_sorted_by :
    (ContextCandidate → ContextCandidate → Ordering) → List ContextCandidate → Bool
is_sorted_by order [] = true
is_sorted_by order (c ∷ []) = true
is_sorted_by order (c ∷ d ∷ cs) = not (is_gt (order c d)) && is_sorted_by order (d ∷ cs)
