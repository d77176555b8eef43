-- ===== src/Core/Agent/Runs.antt =====
-- agent.rs: runs of an agent over sequences of events, and the token budget.
use gobrowseos.Prelude.{
  ℕ, ◌+◌, ◌≤◌, ◌<◌, ◌≡◌, refl, Bool, true, false, not, leb, leb→le, all, ◌||◌, List, [], ◌∷◌, arith,
  Option, none, some, u32_max,
}
use gobrowseos.Core.Agent.{
  RunState, queued, building_context, awaiting_model, awaiting_policy, awaiting_approval,
  running_tool, paused, completed, failed, canceled, RunEvent, started, context_built,
  model_requested, tool_requested, policy_allowed, approval_required, approval_granted,
  approval_denied, tool_completed, pause_requested, resume_requested, turn_completed, run_failed,
  cancel_requested, AgentRun, is_terminal, next_state, transition, TokenBudget, input_limit,
  allocated, fits,
}

abbrev states : List RunState
states =
    queued ∷ building_context ∷ awaiting_model ∷ awaiting_policy ∷ awaiting_approval ∷ running_tool
    ∷ paused ∷ completed ∷ failed ∷ canceled ∷ []

abbrev events : List RunEvent
events =
    started ∷ context_built ∷ model_requested ∷ tool_requested ∷ policy_allowed ∷ approval_required
    ∷ approval_granted ∷ approval_denied ∷ tool_completed ∷ pause_requested ∷ resume_requested
    ∷ turn_completed ∷ run_failed ∷ cancel_requested ∷ []

every_state : (f : RunState → Bool) → all f states ≡ true → (s : RunState) → f s ≡ true
every_state f h queued = ground arith
every_state f h building_context = ground arith
every_state f h awaiting_model = ground arith
every_state f h awaiting_policy = ground arith
every_state f h awaiting_approval = ground arith
every_state f h running_tool = ground arith
every_state f h paused = ground arith
every_state f h completed = ground arith
every_state f h failed = ground arith
every_state f h canceled = ground arith

every_event : (f : RunEvent → Bool) → all f events ≡ true → (e : RunEvent) → f e ≡ true
every_event f h started = ground arith
every_event f h context_built = ground arith
every_event f h model_requested = ground arith
every_event f h tool_requested = ground arith
every_event f h policy_allowed = ground arith
every_event f h approval_required = ground arith
every_event f h approval_granted = ground arith
every_event f h approval_denied = ground arith
every_event f h tool_completed = ground arith
every_event f h pause_requested = ground arith
every_event f h resume_requested = ground arith
every_event f h turn_completed = ground arith
every_event f h run_failed = ground arith
every_event f h cancel_requested = ground arith

-- A test of a state and an event that the table passes in full holds.
every_pair :
    (f : RunState → RunEvent → Bool)
    → all (λ s. all (f s) events) states ≡ true
    → (s : RunState) (e : RunEvent) → f s e ≡ true
every_pair f h s e = every_event (f s) (every_state (λ t. all (f t) events) h s) e

abbrev is_none : Option RunState → Bool
is_none none = true
is_none (some s) = false

-- Nothing leads out of a terminal state.
terminal_table :
    (s : RunState) (e : RunEvent) → (not (is_terminal s) || is_none (next_state s e)) ≡ true
terminal_table = every_pair (λ s e. not (is_terminal s) || is_none (next_state s e)) refl

is_none-none : (o : Option RunState) → is_none o ≡ true → o ≡ none
is_none-none none h = refl
is_none-none (some s) h = cc

transition-terminal :
    (r : AgentRun) (e : RunEvent) → is_terminal r.state ≡ true → (transition r e).0 ≡ r
unfolding transition
transition-terminal r e h =
    let stuck = is_none-none (next_state r.state e) (ground (arith, terminal_table r.state e)) in
    rw stuck refl

unfoldable pub run_events : List RunEvent → AgentRun → AgentRun
run_events [] r = r
run_events (e ∷ es) r = run_events es (transition r e).0

-- A run that is completed, failed or canceled is changed by no sequence of events.
pub run_events-terminal :
    (es : List RunEvent) (r : AgentRun) → is_terminal r.state ≡ true → run_events es r ≡ r
unfolding run_events
run_events-terminal [] r h = refl
run_events-terminal (e ∷ es) r h = rw (transition-terminal r e h) (run_events-terminal es r h)

-- 1 for a permission to run a tool: by the policy, or by an approval.
abbrev pub permission : RunEvent → ℕ
permission policy_allowed = 1
permission approval_granted = 1
permission _ = 0

abbrev pub is_running_tool : Option RunState → ℕ
is_running_tool (some running_tool) = 1
is_running_tool _ = 0

abbrev pub permissions : List RunEvent → ℕ
permissions [] = 0
permissions (e ∷ es) = permission e + permissions es

-- How many of the events start a tool.
unfoldable pub tool_starts : List RunEvent → AgentRun → ℕ
tool_starts [] r = 0
tool_starts (e ∷ es) r = is_running_tool (next_state r.state e) + tool_starts es (transition r e).0

start_table :
    (s : RunState) (e : RunEvent) → leb (is_running_tool (next_state s e)) (permission e) ≡ true
start_table = every_pair (λ s e. leb (is_running_tool (next_state s e)) (permission e)) refl

-- Over any sequence of events a run starts tools at most as often as the events hold permissions,
-- given by the policy or by an approval.
pub tool_starts-permissions :
    (es : List RunEvent) (r : AgentRun) → tool_starts es r ≤ permissions es
unfolding tool_starts
tool_starts-permissions [] r = omega arith
tool_starts-permissions (e ∷ es) r = omega (
  arith,
  leb→le (is_running_tool (next_state r.state e)) (permission e) (start_table r.state e),
  tool_starts-permissions es (transition r e).0,
)

-- If a budget with some allocation and a context window below the maximum of 32 bits fits, all its
-- parts together with the reserved output stay within the context window.
pub fits-window :
    (b : TokenBudget)
    → b.context_window < u32_max
    → fits b ≡ true
    → 0 < allocated b
    → b.system + b.recent_conversation + b.pinned_books + b.retrieved_library + b.skills + b.tools
        + b.reserved_output
      ≤ b.context_window
unfolding fits
fits-window b h f p = omega (arith, leb→le (allocated b) (input_limit b) f, p)
