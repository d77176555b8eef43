-- ===== src/Sandboxd/Daemon/Steps.antt =====
-- crates/gobrowse-sandboxd/src/daemon.rs: the daemon as a sequence of events: requests that arrive,
-- steps of the tasks that serve them, tasks that are cancelled, and restarts of the daemon.
use gobrowseos.Prelude.{
  ℕ, ◌+◌, Bool, true, false, ◌&&◌, Option, none, some, List, [], ◌∷◌, ◌==◌, lookup, insert, remove,
}
use gobrowseos.Sandboxd.Replay.{ReplayCache}
use gobrowseos.Sandboxd.Daemon.Errors.{DaemonError, ResponseEnvelope, error_response}
use gobrowseos.Sandboxd.Daemon.Admission.{Request, Route, journaled}
use gobrowseos.Sandboxd.Daemon.Serving.{
  Outcome, Phase, looking, parked, dispatching, dispatched, Task, DaemonState, response_for,
  fingerprint_of, moved, settle, advance,
}

-- A task is known by a number. `arrive` starts a task for an admitted request, `step` is its next
-- step, `finish` the end of its operation, `wake` its notification, which may come at any time,
-- `drop` its cancellation, and `restart` starts the daemon anew with an empty replay cache.
pub data Event (R : Type 0) : Type 0 where
  arrive : ℕ → Request → Event R
  step : ℕ → Event R
  finish : ℕ → Outcome R → Event R
  wake drop : ℕ → Event R
  restart : ReplayCache (ResponseEnvelope R) → Event R

abbrev pub is_journaled : Route → Bool
is_journaled (journaled fp terminal kind) = true
is_journaled _ = false

abbrev pub begins : Bool → Bool → ℕ
begins false true = 1
begins _ _ = 0

module _ {R : Type 0} where
  abbrev pub is_dispatching : Phase R → Bool
  is_dispatching dispatching = true
  is_dispatching _ = false

  -- Whether a task runs the operation of a journaled request with this identifier.
  abbrev pub runs_operation : ℕ → Option (Task R) → Bool
  runs_operation k none = false
  runs_operation k (some task) =
      is_journaled task.request.route && (task.request.request_id == k && is_dispatching task.phase)

module _ {R Blob : Type 0} where
  abbrev pub start_task : DaemonState R Blob → ℕ → Request → Option (Task R) → DaemonState R Blob
  start_task d t request none = record d {
    tasks = insert t (record { request = request; phase = looking }) d.tasks;
  }
  start_task d t request (some task) = d

  abbrev pub finish_phase :
      DaemonState R Blob → ℕ → Request → Outcome R → Phase R → DaemonState R Blob
  finish_phase d t request outcome dispatching =
      moved d t request (dispatched (response_for request.request_id outcome))
  finish_phase d t request outcome _ = d

  abbrev pub wake_phase : DaemonState R Blob → ℕ → Request → Phase R → DaemonState R Blob
  wake_phase d t request parked = moved d t request looking
  wake_phase d t request _ = d

  -- A task is cancelled only where it awaits. In a dispatch it holds `ReplayExecutionGuard`, whose
  -- drop completes the entry with a timeout.
  abbrev pub drop_phase : DaemonState R Blob → ℕ → Request → Phase R → DaemonState R Blob
  drop_phase d t request dispatching =
      let response = error_response request.request_id DaemonError.operation_timeout in
      let settled = settle d t request response (fingerprint_of request.route) in
      record settled { tasks = remove t settled.tasks }
  drop_phase d t request parked = record d { tasks = remove t d.tasks }
  drop_phase d t request _ = d

  abbrev pub on_task :
      DaemonState R Blob
      → Option (Task R)
      → (Request → Phase R → DaemonState R Blob)
      → DaemonState R Blob
  on_task d none f = d
  on_task d (some task) f = f task.request task.phase

  abbrev pub begins_at : ℕ → ℕ → DaemonState R Blob → DaemonState R Blob → ℕ
  begins_at k t before after =
      begins (runs_operation k (lookup t before.tasks)) (runs_operation k (lookup t after.tasks))

  module _ (encode : ResponseEnvelope R → Option Blob)
      (decode : Blob → Option (ResponseEnvelope R)) where
    unfoldable pub apply_event : Event R → DaemonState R Blob → DaemonState R Blob
    apply_event (arrive t request) d = start_task d t request (lookup t d.tasks)
    apply_event (step t) d = on_task d (lookup t d.tasks) (advance encode decode d t)
    apply_event (finish t outcome) d =
        on_task d (lookup t d.tasks) (λ request. finish_phase d t request outcome)
    apply_event (wake t) d = on_task d (lookup t d.tasks) (wake_phase d t)
    apply_event (drop t) d = on_task d (lookup t d.tasks) (drop_phase d t)
    apply_event (restart cache) d = record d { replay = cache; tasks = [] }

    unfoldable pub run_daemon : List (Event R) → DaemonState R Blob → DaemonState R Blob
    run_daemon [] d = d
    run_daemon (e ∷ es) d = run_daemon es (apply_event e d)

    -- 1 if the event starts the operation of a journaled request with this identifier: its task
    -- was not dispatching before, and is afterwards.
    unfoldable pub dispatches : ℕ → Event R → DaemonState R Blob → ℕ
    dispatches k (arrive t request) d = begins_at k t d (apply_event (arrive t request) d)
    dispatches k (step t) d = begins_at k t d (apply_event (step t) d)
    dispatches k (finish t outcome) d = begins_at k t d (apply_event (finish t outcome) d)
    dispatches k (wake t) d = begins_at k t d (apply_event (wake t) d)
    dispatches k (drop t) d = begins_at k t d (apply_event (drop t) d)
    dispatches k (restart cache) d = 0

    unfoldable pub dispatches_of : ℕ → List (Event R) → DaemonState R Blob → ℕ
    dispatches_of k [] d = 0
    dispatches_of k (e ∷ es) d = dispatches k e d + dispatches_of k es (apply_event e d)
