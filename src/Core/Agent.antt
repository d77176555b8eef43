-- ===== src/Core/Agent.antt =====
-- crates/gobrowse-core/src/agent.rs: the states of an agent's run and the token budget. A run's `id`
-- is not read.
pub mod Runs
use gobrowseos.Prelude.{
  ℕ, ◌+◌, ◌-◌, Bool, true, false, not, leb, saturating_add32, Option, none, some, Result, ok, err,
  if◌then◌else◌,
}

pub data RunState : Type 0 where
  queued building_context awaiting_model awaiting_policy awaiting_approval running_tool : RunState
  paused completed failed canceled : RunState

abbrev pub is_terminal : RunState → Bool
is_terminal completed = true
is_terminal failed = true
is_terminal canceled = true
is_terminal _ = false

pub data RunEvent : Type 0 where
  started context_built model_requested tool_requested policy_allowed approval_required : RunEvent
  approval_granted approval_denied tool_completed pause_requested resume_requested : RunEvent
  turn_completed run_failed cancel_requested : RunEvent

pub record TransitionError : Type 0 where
  pub from : RunState
  pub event : RunEvent

pub record AgentRun : Type 0 where
  pub state : RunState
  pub step : ℕ

abbrev pub unless_terminal : RunState → RunState → Option RunState
unless_terminal state next = if is_terminal state then none else some next

-- The `match` on the state and the event.
abbrev pub next_state : RunState → RunEvent → Option RunState
next_state queued started = some building_context
next_state building_context context_built = some awaiting_model
next_state awaiting_model model_requested = some awaiting_model
next_state awaiting_model tool_requested = some awaiting_policy
next_state awaiting_policy policy_allowed = some running_tool
next_state awaiting_policy approval_required = some awaiting_approval
next_state awaiting_approval approval_granted = some running_tool
next_state awaiting_approval approval_denied = some awaiting_model
next_state running_tool tool_completed = some awaiting_model
next_state awaiting_model turn_completed = some completed
next_state paused resume_requested = some building_context
next_state state pause_requested = unless_terminal state paused
next_state state cancel_requested = unless_terminal state canceled
next_state state run_failed = unless_terminal state failed
next_state _ _ = none

abbrev pub moved :
    AgentRun → RunEvent → Option RunState → AgentRun × Result RunState TransitionError
moved r event none = (r, err (record { from = r.state; event = event }))
moved r event (some next) = (record { state = next; step = saturating_add32 r.step 1 }, ok next)

unfoldable pub transition : AgentRun → RunEvent → AgentRun × Result RunState TransitionError
transition r event = moved r event (next_state r.state event)

pub record TokenBudget : Type 0 where
  pub context_window : ℕ
  pub reserved_output : ℕ
  pub system : ℕ
  pub recent_conversation : ℕ
  pub pinned_books : ℕ
  pub retrieved_library : ℕ
  pub skills : ℕ
  pub tools : ℕ

abbrev pub input_limit : TokenBudget → ℕ
input_limit b = b.context_window - b.reserved_output

abbrev pub allocated : TokenBudget → ℕ
allocated b =
    saturating_add32
      (saturating_add32
        (saturating_add32
          (saturating_add32 (saturating_add32 b.system b.recent_conversation) b.pinned_books)
          b.retrieved_library)
        b.skills)
      b.tools

unfoldable pub fits : TokenBudget → Bool
fits b = leb (allocated b) (input_limit b)
