-- ===== src/Sandboxd/Tests.antt =====
-- Tests of the sessions and the registry of runtime.rs.
use gobrowseos.Prelude.{ℕ, ◌≡◌, refl, false, List, [], ◌∷◌}
use gobrowseos.Sandboxd.Session.{
  Session, LifecycleState, running, exited, terminated, unrecoverable,
}
use gobrowseos.Sandboxd.Session.Absorbing.{
  SessionStep, to_state, terminate, claim, release, run_steps, run_steps-terminal,
}
use gobrowseos.Sandboxd.Registry.{
  SessionLimits, Registered, new, reserve, complete, cancel_reservation, remove_completed,
}
use gobrowseos.Sandboxd.Registry.Invariant.{IsValid, new-IsValid}
use gobrowseos.Sandboxd.Registry.Runs.{
  RegistryCall, reserve_call, complete_call, cancel_call, remove_call, apply_registry, run_registry,
  IsPermittedRun, run_registry-IsValid,
}

abbrev session : LifecycleState → Session
session s = record { state = s; termination_requested = false; termination_owner = false }

abbrev steps : List SessionStep
steps =
    to_state running
    ∷ claim
    ∷ terminate
    ∷ to_state unrecoverable
    ∷ to_state exited
    ∷ release
    ∷ to_state running
    ∷ []

run_steps-terminal_example : (run_steps steps (session terminated)).state ≡ terminated
run_steps-terminal_example = run_steps-terminal steps (session terminated) refl

abbrev limits : SessionLimits
limits = record { max_active = 2; max_active_per_workspace = 1; max_retained_records = 1 }

abbrev registered : ℕ → ℕ → Registered
registered t w = record { terminal_id = t; workspace_id = w }

-- Two sessions complete, so that the first record is forgotten; a third is cancelled.
abbrev registry_calls : List RegistryCall
registry_calls =
    reserve_call (registered 1 10)
    ∷ reserve_call (registered 2 11)
    ∷ reserve_call (registered 3 12)
    ∷ complete_call 1
    ∷ complete_call 2
    ∷ reserve_call (registered 4 10)
    ∷ cancel_call 4
    ∷ remove_call 2
    ∷ []

calls-permitted : IsPermittedRun limits registry_calls new
unfolding apply_registry reserve complete cancel_reservation remove_completed
calls-permitted = (
  (refl, refl),
  ((refl, refl), ((refl, refl), (refl, (refl, ((refl, refl), (refl, (refl, tt))))))),
)

run_registry-IsValid_example : IsValid limits (run_registry limits registry_calls new)
run_registry-IsValid_example =
    run_registry-IsValid limits registry_calls new (new-IsValid limits) calls-permitted
