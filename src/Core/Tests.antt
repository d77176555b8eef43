-- ===== src/Core/Tests.antt =====
-- Tests of agent.rs, sandbox.rs and policy.rs.
use gobrowseos.Prelude.{
  ℕ, ◌+◌, ◌≤◌, ◌≡◌, ◌↔◌, ◌⊎◌, refl, true, false, not, List, [], ◌∷◌, any, arith, ok,
}
use gobrowseos.Core.Agent.{
  AgentRun, RunEvent, completed, queued, started, context_built, tool_requested, approval_required,
  approval_granted, tool_completed, TokenBudget, fits,
}
use gobrowseos.Core.Agent.Runs.{tool_starts, permissions, tool_starts-permissions, fits-window}
use gobrowseos.Core.Sandbox.{
  ResourceLimits, hard_resource_limits, validate_hard_ceiling, Bytes, Component, normal,
  TerminalStartRequest, validate, validate_command, validate_workspace_path, Ipv4Addr, is_public_v4,
}
use gobrowseos.Core.Sandbox.Addresses.{
  IsAddress, in_block, to_number, special_blocks, is_public_v4-blocks,
}
use gobrowseos.Core.Policy.{
  write, execute, risk_rank, allow, ask, PolicyRule, pattern_matches, evaluate, first_match,
  same_bytes, starts_with, strip_star,
}
use gobrowseos.Core.Policy.Patterns.{Matches, pattern_matches_iff, Decides, evaluate-allow}

abbrev done : AgentRun
done = record { state = completed; step = 3 }

abbrev fresh : AgentRun
fresh = record { state = queued; step = 0 }

abbrev events : List RunEvent
events =
    started ∷ context_built ∷ tool_requested ∷ approval_required ∷ approval_granted ∷ tool_completed
    ∷ []

tool_starts-permissions_example : tool_starts events fresh ≤ permissions events
tool_starts-permissions_example = tool_starts-permissions events fresh

abbrev budget : TokenBudget
budget = record {
  context_window = 1000;
  reserved_output = 200;
  system = 100;
  recent_conversation = 300;
  pinned_books = 100;
  retrieved_library = 100;
  skills = 50;
  tools = 50;
}

budget-fits : fits budget ≡ true
unfolding fits
budget-fits = refl

fits-window_example : 100 + 300 + 100 + 100 + 50 + 50 + 200 ≤ 1000
fits-window_example = fits-window budget (omega arith) budget-fits (omega arith)

abbrev asked : ResourceLimits
asked = record {
  cpu_millis = 9000;
  memory_bytes = 1024;
  writable_storage_bytes = 1024;
  pids = 10;
  execution_seconds = 60;
}

ceiling-valid : validate_hard_ceiling hard_resource_limits ≡ ok hard_resource_limits
unfolding validate_hard_ceiling
ceiling-valid = refl

-- One name to a path, as a path without a separator has.
abbrev one_name : Bytes → List Component
one_name path = normal path ∷ []

abbrev request : TerminalStartRequest
request = record {
  command = (115 ∷ 104 ∷ []) ∷ [];
  working_directory = 97 ∷ [];
  cols = 80;
  rows = 24;
  limits = record asked { cpu_millis = 500 };
}

request-valid : validate one_name (λ path. false) request ≡ ok (97 ∷ [])
unfolding validate validate_command validate_workspace_path validate_hard_ceiling
request-valid = refl

abbrev address : Ipv4Addr
address = record { a = 172; b = 32; c = 0; d = 1 }

address-small : IsAddress address
address-small = record {
  a_small = omega arith;
  b_small = omega arith;
  c_small = omega arith;
  d_small = omega arith;
}

is_public_v4-blocks_example :
    is_public_v4 address ≡ not (any (in_block (to_number address)) special_blocks)
is_public_v4-blocks_example = is_public_v4-blocks address address-small

abbrev pattern : List ℕ
pattern = 102 ∷ 115 ∷ 42 ∷ []

abbrev tool : List ℕ
tool = 102 ∷ 115 ∷ 46 ∷ 114 ∷ []

pattern_matches_iff_example : (pattern_matches pattern tool ≡ true) ↔ Matches pattern tool
pattern_matches_iff_example = pattern_matches_iff pattern tool

abbrev rules : List PolicyRule
rules = record { tool_pattern = pattern; maximum_auto_risk = execute; decision_above = ask } ∷ []

write-allowed : evaluate rules tool write ≡ allow
unfolding evaluate first_match pattern_matches same_bytes starts_with strip_star
write-allowed = refl

evaluate-allow_example :
    (risk_rank write ≡ 0)
    ⊎ ((rule : PolicyRule) × Decides rules tool rule
        × ((risk_rank write ≤ risk_rank rule.maximum_auto_risk) ⊎ (rule.decision_above ≡ allow)))
evaluate-allow_example = evaluate-allow rules tool write write-allowed
