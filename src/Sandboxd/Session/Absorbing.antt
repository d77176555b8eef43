-- ===== src/Sandboxd/Session/Absorbing.antt =====
-- runtime.rs, `Session`: sequences of steps of a session.
use gobrowseos.Prelude.{
  ◌≡◌, refl, ap, ◌∙◌, arith, Bool, true, false, List, [], ◌∷◌, ℕ, ◌≤◌, if◌then◌else◌,
}
use gobrowseos.Sandboxd.Session.{
  LifecycleState, starting, running, terminating, unrecoverable, exited, terminated, is_terminal,
  Session, changes, transition, begin_termination, claim_termination, release_termination,
}

-- `request` is the store of the flag alone: the actions of `begin_termination` may be interleaved
-- with those of other tasks, and are then a `request` and a `to_state terminating`.
pub data SessionStep : Type 0 where
  to_state : LifecycleState → SessionStep
  terminate : SessionStep
  request : SessionStep
  claim : SessionStep
  release : SessionStep

pub apply_step : SessionStep → Session → Session
apply_step (to_state next) s = (transition s next).0
apply_step terminate s = (begin_termination s).0
apply_step request s = record s { termination_requested = true }
apply_step claim s = (claim_termination s).0
apply_step release s = release_termination s

pub run_steps : List SessionStep → Session → Session
run_steps [] s = s
run_steps (x ∷ xs) s = run_steps xs (apply_step x s)

-- How far a state is along the lifecycle.
abbrev pub rank : LifecycleState → ℕ
rank starting = 0
rank running = 1
rank terminating = 2
rank unrecoverable = 2
rank exited = 3
rank terminated = 3

rank_max : (s : LifecycleState) → rank s ≤ 3
rank_max starting = omega arith
rank_max running = omega arith
rank_max terminating = omega arith
rank_max unrecoverable = omega arith
rank_max exited = omega arith
rank_max terminated = omega arith

changes-rank : (s t : LifecycleState) → changes s t ≡ true → rank s ≤ rank t
changes-rank s exited h = rank_max s
changes-rank s terminated h = rank_max s
changes-rank s starting h = cc
changes-rank starting running h = omega arith
changes-rank running running h = cc
changes-rank terminating running h = cc
changes-rank unrecoverable running h = cc
changes-rank exited running h = cc
changes-rank terminated running h = cc
changes-rank starting terminating h = omega arith
changes-rank running terminating h = omega arith
changes-rank terminating terminating h = cc
changes-rank unrecoverable terminating h = omega arith
changes-rank exited terminating h = cc
changes-rank terminated terminating h = cc
changes-rank starting unrecoverable h = omega arith
changes-rank running unrecoverable h = omega arith
changes-rank terminating unrecoverable h = omega arith
changes-rank unrecoverable unrecoverable h = cc
changes-rank exited unrecoverable h = cc
changes-rank terminated unrecoverable h = cc

transition-rank : (s : Session) (t : LifecycleState) → rank s.state ≤ rank (transition s t).0.state
unfolding transition
transition-rank s t = ground (arith, changes-rank s.state t)

begin_termination-rank : (s : Session) → rank s.state ≤ rank (begin_termination s).0.state
unfolding begin_termination
begin_termination-rank s =
    ground (arith, transition-rank (record s { termination_requested = true }) terminating)

apply_step-rank : (x : SessionStep) (s : Session) → rank s.state ≤ rank (apply_step x s).state
unfolding apply_step claim_termination release_termination
apply_step-rank (to_state t) s = transition-rank s t
apply_step-rank terminate s = begin_termination-rank s
apply_step-rank request s = omega arith
apply_step-rank claim s = ground arith
apply_step-rank release s = omega arith

-- Over any sequence of steps of tasks the lifecycle of a session never goes back in the order
-- starting, running, terminating or unrecoverable, ended.
pub run_steps-rank :
    (xs : List SessionStep) (s : Session) → rank s.state ≤ rank (run_steps xs s).state
unfolding run_steps
run_steps-rank [] s = omega arith
run_steps-rank (x ∷ xs) s = omega (arith, apply_step-rank x s, run_steps-rank xs (apply_step x s))

apply_step-terminal :
    (x : SessionStep) (s : Session) → is_terminal s.state ≡ true → (apply_step x s).state ≡ s.state
unfolding apply_step transition begin_termination claim_termination release_termination
apply_step-terminal (to_state t) s h = ground arith
apply_step-terminal terminate s h = ground arith
apply_step-terminal request s h = refl
apply_step-terminal claim s h = ground arith
apply_step-terminal release s h = refl

-- A session that has exited or was terminated stays in that state over any sequence of steps.
pub run_steps-terminal :
    (xs : List SessionStep) (s : Session)
    → is_terminal s.state ≡ true
    → (run_steps xs s).state ≡ s.state
unfolding run_steps
run_steps-terminal [] s h = refl
run_steps-terminal (x ∷ xs) s h =
    let same = apply_step-terminal x s h in
    run_steps-terminal xs (apply_step x s) (ap is_terminal same ∙ h) ∙ same

begin_cases :
    (l : LifecycleState) (r o : Bool)
    → let s : Session = record { state = l; termination_requested = r; termination_owner = o } in
      begin_termination s ≡ (
        if is_terminal l
        then (s, false)
        else (record s { state = terminating; termination_requested = true }, true))
unfolding begin_termination transition
begin_cases starting r o = refl
begin_cases running r o = refl
begin_cases terminating r o = refl
begin_cases unrecoverable r o = refl
begin_cases exited r o = refl
begin_cases terminated r o = refl

-- Beginning a termination succeeds exactly when the session has not ended; the session is then in
-- the terminating state with the request recorded, and otherwise it is left as it was.
pub begin_termination-state :
    (s : Session)
    → begin_termination s ≡ (
        if is_terminal s.state
        then (s, false)
        else (record s { state = terminating; termination_requested = true }, true))
begin_termination-state s = begin_cases s.state s.termination_requested s.termination_owner
