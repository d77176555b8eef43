-- ===== src/Core/Policy.antt =====
-- crates/gobrowse-core/src/policy.rs: which tool calls are allowed. A string is the list of its bytes;
-- a `*` is the byte 42.
pub mod Patterns
use gobrowseos.Prelude.{
  ℕ, Bool, true, false, ◌&&◌, ◌||◌, Option, none, some, List, [], ◌∷◌, leb, ◌==◌, if◌then◌else◌,
}

pub data RiskClass : Type 0 where
  read write execute external_side_effect destructive admin : RiskClass

-- The derived order.
abbrev pub risk_rank : RiskClass → ℕ
risk_rank read = 0
risk_rank write = 1
risk_rank execute = 2
risk_rank external_side_effect = 3
risk_rank destructive = 4
risk_rank admin = 5

pub data PolicyDecision : Type 0 where
  allow ask deny : PolicyDecision

pub record PolicyRule : Type 0 where
  pub tool_pattern : List ℕ
  pub maximum_auto_risk : RiskClass
  pub decision_above : PolicyDecision

unfoldable pub same_bytes : List ℕ → List ℕ → Bool
same_bytes [] [] = true
same_bytes [] (y ∷ ys) = false
same_bytes (x ∷ xs) [] = false
same_bytes (x ∷ xs) (y ∷ ys) = x == y && same_bytes xs ys

unfoldable pub starts_with : List ℕ → List ℕ → Bool
starts_with value [] = true
starts_with [] (p ∷ ps) = false
starts_with (v ∷ vs) (p ∷ ps) = v == p && starts_with vs ps

abbrev pub kept_first : ℕ → Option (List ℕ) → Option (List ℕ)
kept_first x none = none
kept_first x (some xs) = some (x ∷ xs)

-- `strip_suffix('*')`.
unfoldable pub strip_star : List ℕ → Option (List ℕ)
strip_star [] = none
strip_star (x ∷ []) = if x == 42 then some [] else none
strip_star (x ∷ y ∷ ys) = kept_first x (strip_star (y ∷ ys))

abbrev pub prefix_matches : List ℕ → Option (List ℕ) → Bool
prefix_matches value none = false
prefix_matches value (some prefix) = starts_with value prefix

unfoldable pub pattern_matches : List ℕ → List ℕ → Bool
unfolding same_bytes strip_star
pattern_matches pattern value =
    same_bytes pattern (42 ∷ [])
    || (same_bytes pattern value || prefix_matches value (strip_star pattern))

-- `iter().find`.
unfoldable pub first_match : List PolicyRule → List ℕ → Option PolicyRule
unfolding pattern_matches
first_match [] tool = none
first_match (r ∷ rules) tool =
    let rest = first_match rules tool in
    if pattern_matches r.tool_pattern tool then some r else rest

abbrev pub default_decision : RiskClass → PolicyDecision
default_decision read = allow
default_decision _ = ask

abbrev pub decide : RiskClass → Option PolicyRule → PolicyDecision
decide risk none = default_decision risk
decide risk (some r) =
    if leb (risk_rank risk) (risk_rank r.maximum_auto_risk) then allow else r.decision_above

unfoldable pub evaluate : List PolicyRule → List ℕ → RiskClass → PolicyDecision
unfolding first_match
evaluate rules tool risk = decide risk (first_match rules tool)
