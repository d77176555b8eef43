-- ===== src/Sandboxd/Session.antt =====
-- crates/gobrowse-sandboxd/src/runtime.rs: the lifecycle of one terminal session. Its state is
-- behind a watch channel and its flags are atomics. `begin_termination` is three atomic actions, which
-- are one function here; the other methods are one each.
pub mod Absorbing
use gobrowseos.Prelude.{Bool, true, false, not, ◌&&◌, ◌||◌, if◌then◌else◌}
use gobrowseos.Sandboxd.Journal.Tables.{TerminalState}

pub data LifecycleState : Type 0 where
  starting running terminating unrecoverable exited terminated : LifecycleState

abbrev pub terminal_state : LifecycleState → TerminalState
terminal_state starting = TerminalState.running
terminal_state running = TerminalState.running
terminal_state terminating = TerminalState.terminating
terminal_state unrecoverable = TerminalState.unrecoverable
terminal_state exited = TerminalState.exited
terminal_state terminated = TerminalState.terminated

abbrev pub is_terminal : LifecycleState → Bool
is_terminal exited = true
is_terminal terminated = true
is_terminal _ = false

pub record Session : Type 0 where
  pub state : LifecycleState
  pub termination_requested : Bool
  pub termination_owner : Bool

abbrev pub new : Session
new = record { state = starting; termination_requested = false; termination_owner = false }

-- The `match` on the next state, and whether it differs from the current one.
abbrev pub changes : LifecycleState → LifecycleState → Bool
changes current starting = false
changes starting running = true
changes _ running = false
changes starting terminating = true
changes running terminating = true
changes unrecoverable terminating = true
changes _ terminating = false
changes starting unrecoverable = true
changes running unrecoverable = true
changes terminating unrecoverable = true
changes _ unrecoverable = false
changes current exited = true
changes current terminated = true

unfoldable pub transition : Session → LifecycleState → Session × Bool
transition s next =
    if is_terminal s.state
    then (s, false)
    else if changes s.state next
    then (record s { state = next }, true)
    else (s, false)

abbrev pub is_terminable : LifecycleState → Bool
is_terminable starting = true
is_terminable running = true
is_terminable unrecoverable = true
is_terminable _ = false

unfoldable pub begin_termination : Session → Session × Bool
unfolding transition
begin_termination s =
    if is_terminal s.state
    then (s, false)
    else (let requested = record s { termination_requested = true } in
        if is_terminable s.state
        then ((transition requested terminating).0, true)
        else (requested, true))

-- `compare_exchange(false, true)`: the claim is there if it succeeded.
unfoldable pub claim_termination : Session → Session × Bool
claim_termination s =
    if s.termination_owner then (s, false) else (record s { termination_owner = true }, true)

-- The claim is dropped.
unfoldable pub release_termination : Session → Session
release_termination s = record s { termination_owner = false }
