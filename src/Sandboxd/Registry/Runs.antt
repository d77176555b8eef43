-- ===== src/Sandboxd/Registry/Runs.antt =====
-- runtime.rs, `Registry`: the registry over every permitted sequence of calls.
use gobrowseos.Prelude.{ℕ, ◌≡◌, true, false, none, List, [], ◌∷◌, lookup}
use gobrowseos.Sandboxd.Registry.{
  SessionLimits, Registered, Registry, reserve, complete, remove_completed, cancel_reservation,
}
use gobrowseos.Sandboxd.Registry.Counts.{has}
use gobrowseos.Sandboxd.Registry.Invariant.{
  IsValid, reserve-IsValid, complete-IsValid, cancel_reservation-IsValid, remove_completed-IsValid,
}

-- The calls that the daemon makes of the registry.
pub data RegistryCall : Type 0 where
  reserve_call : Registered → RegistryCall
  complete_call : ℕ → RegistryCall
  cancel_call : ℕ → RegistryCall
  remove_call : ℕ → RegistryCall

unfoldable pub apply_registry : SessionLimits → RegistryCall → Registry → Registry
apply_registry limits (reserve_call s) r = (reserve r s limits).0
apply_registry limits (complete_call id) r = complete r id limits
apply_registry limits (cancel_call id) r = cancel_reservation r id
apply_registry limits (remove_call id) r = remove_completed r id

-- A session is reserved under a new identifier, it completes or is cancelled once, and only the
-- record of a completed one is removed.
abbrev pub IsPermitted : Registry → RegistryCall → Type 0
IsPermitted r (reserve_call s) =
    (lookup s.terminal_id r.sessions ≡ none) × (has s.terminal_id r.completed ≡ false)
IsPermitted r (complete_call id) = has id r.completed ≡ false
IsPermitted r (cancel_call id) = has id r.completed ≡ false
IsPermitted r (remove_call id) = has id r.completed ≡ true

unfoldable pub run_registry : SessionLimits → List RegistryCall → Registry → Registry
run_registry limits [] r = r
run_registry limits (c ∷ cs) r = run_registry limits cs (apply_registry limits c r)

abbrev pub IsPermittedRun : SessionLimits → List RegistryCall → Registry → Type 0
IsPermittedRun limits [] r = Unit {0}
IsPermittedRun limits (c ∷ cs) r =
    IsPermitted r c × IsPermittedRun limits cs (apply_registry limits c r)

apply_registry-IsValid :
    (limits : SessionLimits) (c : RegistryCall) (r : Registry)
    → IsValid limits r
    → IsPermitted r c
    → IsValid limits (apply_registry limits c r)
unfolding apply_registry
apply_registry-IsValid limits (reserve_call s) r h p = reserve-IsValid limits r s h p.0 p.1
apply_registry-IsValid limits (complete_call id) r h p = complete-IsValid limits r id h p
apply_registry-IsValid limits (cancel_call id) r h p = cancel_reservation-IsValid limits r id h p
apply_registry-IsValid limits (remove_call id) r h p = remove_completed-IsValid limits r id h p

-- From a valid registry, over any permitted sequence of calls, the counters count the sessions that
-- are there and have not completed, in all and by workspace, they stay within the limits, and no
-- more records of completed sessions are kept than the limit allows.
pub run_registry-IsValid :
    (limits : SessionLimits) (cs : List RegistryCall) (r : Registry)
    → IsValid limits r
    → IsPermittedRun limits cs r
    → IsValid limits (run_registry limits cs r)
unfolding run_registry
run_registry-IsValid limits [] r h p = h
run_registry-IsValid limits (c ∷ cs) r h p =
    run_registry-IsValid limits cs (apply_registry limits c r)
      (apply_registry-IsValid limits c r h p.0) p.1
