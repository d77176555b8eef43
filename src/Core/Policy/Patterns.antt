-- ===== src/Core/Policy/Patterns.antt =====
-- policy.rs: what a pattern of a policy rule matches, and what the absence of rules allows.
use gobrowseos.Prelude.{
  ℕ, ◌≤◌, ◌≡◌, refl, ap, ◌⊎◌, inl, inr, ◌↔◌, true, false, Option, none, some, List, [], ◌∷◌, ◌++◌,
  arith, leb, Bool-cases, Option-cases,
}
use gobrowseos.Core.Policy.{
  RiskClass, read, write, execute, external_side_effect, destructive, admin, risk_rank, allow,
  PolicyRule, same_bytes, starts_with, kept_first, strip_star, prefix_matches, pattern_matches,
  first_match, default_decision, decide, evaluate,
}

same_bytes_sound : (xs ys : List ℕ) → same_bytes xs ys ≡ true → xs ≡ ys
unfolding same_bytes
same_bytes_sound [] [] h = refl
same_bytes_sound [] (y ∷ ys) h = cc
same_bytes_sound (x ∷ xs) [] h = cc
same_bytes_sound (x ∷ xs) (y ∷ ys) h = ground (arith, same_bytes_sound xs ys)

same_bytes_refl : (xs : List ℕ) → same_bytes xs xs ≡ true
unfolding same_bytes
same_bytes_refl [] = refl
same_bytes_refl (x ∷ xs) = ground (arith, same_bytes_refl xs)

starts_with_sound :
    (value prefix : List ℕ)
    → starts_with value prefix ≡ true
    → (rest : List ℕ) × (value ≡ prefix ++ rest)
unfolding starts_with
starts_with_sound value [] h = (value, refl)
starts_with_sound [] (p ∷ ps) h = absurd cc
starts_with_sound (v ∷ vs) (p ∷ ps) h =
    let (rest, e) = starts_with_sound vs ps (ground arith) in (rest, ground (arith, e))

starts_with-append : (prefix rest : List ℕ) → starts_with (prefix ++ rest) prefix ≡ true
unfolding starts_with
starts_with-append [] rest = refl
starts_with-append (p ∷ ps) rest = ground (arith, starts_with-append ps rest)

strip_star-append : (prefix : List ℕ) → strip_star (prefix ++ 42 ∷ []) ≡ some prefix
unfolding strip_star
strip_star-append [] = refl
strip_star-append (p ∷ []) = refl
strip_star-append (p ∷ q ∷ ps) = ap (kept_first p) (strip_star-append (q ∷ ps))

strip_star_sound :
    (pattern prefix : List ℕ) → strip_star pattern ≡ some prefix → pattern ≡ prefix ++ 42 ∷ []
unfolding strip_star
strip_star_sound [] prefix h = cc
strip_star_sound (x ∷ []) prefix h = ground arith
strip_star_sound (x ∷ y ∷ ys) prefix h = elim (Option-cases (strip_star (y ∷ ys))) [
  | inl e ↦ absurd (ground (arith, e))
  | inr (p, e) ↦ ground (arith, e, strip_star_sound (y ∷ ys) p e)
]

-- The pattern is the value, or a prefix of it with a star behind.
abbrev pub Matches : List ℕ → List ℕ → Type 0
Matches pattern value =
    (pattern ≡ value)
    ⊎ ((prefix : List ℕ) × (rest : List ℕ) × (pattern ≡ prefix ++ 42 ∷ [])
        × (value ≡ prefix ++ rest))

star-Matches :
    (pattern value : List ℕ) (o : Option (List ℕ))
    → strip_star pattern ≡ o
    → prefix_matches value o ≡ true
    → Matches pattern value
star-Matches pattern value none e h = absurd cc
star-Matches pattern value (some prefix) e h =
    let (rest, split) = starts_with_sound value prefix h in
    inr (prefix, rest, strip_star_sound pattern prefix e, split)

pattern_matches_sound :
    (pattern value : List ℕ) → pattern_matches pattern value ≡ true → Matches pattern value
unfolding pattern_matches
pattern_matches_sound pattern value h = elim (Bool-cases (same_bytes pattern (42 ∷ []))) [
  | inl star ↦ inr ([], value, same_bytes_sound pattern (42 ∷ []) star, refl)
  | inr e ↦ elim (Bool-cases (same_bytes pattern value)) [
    | inl same ↦ inl (same_bytes_sound pattern value same)
    | inr f ↦ star-Matches pattern value (strip_star pattern) refl (ground (arith, e, f))
  ]
]

pattern_matches_complete :
    (pattern value : List ℕ) → Matches pattern value → pattern_matches pattern value ≡ true
unfolding pattern_matches
pattern_matches_complete pattern value (inl e) = rw e (ground (arith, same_bytes_refl value))
pattern_matches_complete pattern value (inr (prefix, rest, e, f)) =
    rw (e, f) (rw (strip_star-append prefix) (ground (arith, starts_with-append prefix rest)))

-- A pattern matches exactly the value that it is and, if it ends in a star, the values that begin
-- with what stands before the star.
pub pattern_matches_iff :
    (pattern value : List ℕ) → (pattern_matches pattern value ≡ true) ↔ Matches pattern value
pattern_matches_iff pattern value =
    (pattern_matches_sound pattern value, pattern_matches_complete pattern value)

-- The rule that decides: the first one whose pattern matches.
abbrev pub Decides : List PolicyRule → List ℕ → PolicyRule → Type 0
Decides [] tool rule = ⊥
Decides (r ∷ rules) tool rule =
    (Matches r.tool_pattern tool × (r ≡ rule))
    ⊎ ((pattern_matches r.tool_pattern tool ≡ false) × Decides rules tool rule)

first_match-Decides :
    (rules : List PolicyRule) (tool : List ℕ) (rule : PolicyRule)
    → first_match rules tool ≡ some rule
    → Decides rules tool rule
unfolding first_match
first_match-Decides [] tool rule h = absurd cc
first_match-Decides (r ∷ rules) tool rule h =
    elim (Bool-cases (pattern_matches r.tool_pattern tool)) [
      | inl matched ↦
          inl (pattern_matches_sound r.tool_pattern tool matched, ground (arith, matched))
      | inr missed ↦ inr (missed, first_match-Decides rules tool rule (ground (arith, missed)))
    ]

default_decision-allow : (risk : RiskClass) → default_decision risk ≡ allow → risk_rank risk ≡ 0
default_decision-allow read h = refl
default_decision-allow write h = cc
default_decision-allow execute h = cc
default_decision-allow external_side_effect h = cc
default_decision-allow destructive h = cc
default_decision-allow admin h = cc

decide-allow :
    (rules : List PolicyRule) (tool : List ℕ) (risk : RiskClass) (o : Option PolicyRule)
    → first_match rules tool ≡ o
    → decide risk o ≡ allow
    → (risk_rank risk ≡ 0)
      ⊎ ((rule : PolicyRule) × Decides rules tool rule
          × ((risk_rank risk ≤ risk_rank rule.maximum_auto_risk) ⊎ (rule.decision_above ≡ allow)))
decide-allow rules tool risk none e h = inl (default_decision-allow risk h)
decide-allow rules tool risk (some rule) e h = inr (
  rule,
  first_match-Decides rules tool rule e,
  elim (Bool-cases (leb (risk_rank risk) (risk_rank rule.maximum_auto_risk))) [
    | inl low ↦ inl (ground arith)
    | inr high ↦ inr (ground (arith, high))
  ],
)

-- A tool call is allowed without asking only if it just reads, or if the first rule whose pattern
-- matches the tool has a ceiling that is no lower than the risk of the call or allows what is above
-- it.
pub evaluate-allow :
    (rules : List PolicyRule) (tool : List ℕ) (risk : RiskClass)
    → evaluate rules tool risk ≡ allow
    → (risk_rank risk ≡ 0)
      ⊎ ((rule : PolicyRule) × Decides rules tool rule
          × ((risk_rank risk ≤ risk_rank rule.maximum_auto_risk) ⊎ (rule.decision_above ≡ allow)))
unfolding evaluate
evaluate-allow rules tool risk h = decide-allow rules tool risk (first_match rules tool) refl h
