-- ===== src/Sandboxd/Daemon/Once.antt =====
-- crates/gobrowse-sandboxd/src/daemon.rs: how often the operation of a request is started.
pub mod Begins
use gobrowseos.Prelude.{
  ℕ, ◌+◌, ◌==◌, ◌≡◌, ◌&&◌, refl, ap, ◌∙◌, Bool, true, false, Option, none, some, List, [], ◌∷◌,
  arith, if◌then◌else◌, Result, ok, err, Assoc, lookup, insert, update, remove, lookup-update,
  lookup-insert, lookup-remove,
}
use gobrowseos.Sandboxd.Replay.{ReplayDecision, begin, complete}
use gobrowseos.Sandboxd.Journal.Tables.{JournalError}
use gobrowseos.Sandboxd.Journal.Mutations.{MutationDecision, begin_mutation, complete_mutation}
use gobrowseos.Sandboxd.Journal.Mutations.Cached.{
  is_execute, recorded_mutation, begin_mutation_conserves, complete_mutation_conserves,
}
use gobrowseos.Sandboxd.Daemon.Errors.{ResponseEnvelope}
use gobrowseos.Sandboxd.Daemon.Admission.{Request, Route, journaled, replayed, direct}
use gobrowseos.Sandboxd.Daemon.Serving.{
  Outcome, Phase, looking, enabling, parked, granted, dispatching, dispatched, settling, answered,
  Task, DaemonState, fingerprint_of, look, settle, grant, note_response, advance, decided,
  decided_again, begun, moved, recorded_as, response_for,
}
use gobrowseos.Sandboxd.Daemon.Steps.{
  Event, arrive, step, finish, wake, drop, restart, start_task, finish_phase, wake_phase,
  drop_phase, apply_event, run_daemon, is_journaled, begins, is_dispatching, runs_operation,
  begins_at, dispatches, dispatches_of, on_task,
}
use gobrowseos.Sandboxd.Daemon.Once.Begins.{
  same_begins, begins-false, unprinted, decided_quiet, decided_again_quiet, begins-begun,
  removed_begins, moved-runs_operation, begins-moved, direct_begins, begins-look, begins-settle,
  begins-finish_phase, begins-wake_phase, begins-drop_phase, start_begins, on_task_begins,
}

module _ {R Blob : Type 0} (encode : ResponseEnvelope R → Option Blob)
    (decode : Blob → Option (ResponseEnvelope R)) where
  grant_conserves :
      (k : ℕ) (d : DaemonState R Blob) (t : ℕ) (request : Request) (route : Route)
      → request.route ≡ route
      → lookup t d.tasks ≡ some (record { request = request; phase = granted })
      → begins_at k t d (grant encode decode d t request route) + recorded_mutation k d.journal
        ≡ recorded_mutation k (grant encode decode d t request route).journal
  grant_conserves k d t request (journaled fp terminal kind) r e =
      let id = request.request_id in
      let next = begin_mutation decode d.journal id terminal kind fp in
      rw
        (
          moved-runs_operation k (record d { journal = next.0 }) t request (begun id next.1) _ e,
          e,
          r,
        )
        (ap (λ n. n + recorded_mutation k d.journal) (begins-begun id k next.1)
          ∙ begin_mutation_conserves encode decode k d.journal id terminal kind fp)
  grant_conserves k d t request (replayed fp) r e =
      omega (arith, direct_begins k d t request dispatching _ _ e (ap is_journaled r))
  grant_conserves k d t request direct r e =
      omega (arith, direct_begins k d t request dispatching _ _ e (ap is_journaled r))

  note_response_conserves :
      (k : ℕ) (d : DaemonState R Blob) (t : ℕ) (request : Request) (response : ResponseEnvelope R)
      (route : Route)
      → recorded_mutation k (note_response encode decode d t request response route).journal
        ≡ recorded_mutation k d.journal
  note_response_conserves k d t request response (journaled fp terminal kind) =
      complete_mutation_conserves encode decode k d.journal request.request_id response
  note_response_conserves k d t request response (replayed fp) = refl
  note_response_conserves k d t request response direct = refl

  settle-journal :
      (d : DaemonState R Blob) (t : ℕ) (request : Request) (response : ResponseEnvelope R)
      (o : Option ℕ)
      → (settle d t request response o).journal ≡ d.journal
  settle-journal d t request response none = refl
  settle-journal d t request response (some fp) = refl

  look-journal :
      (d : DaemonState R Blob) (t : ℕ) (request : Request)
      (next : ReplayDecision (ResponseEnvelope R) → Phase R) (o : Option ℕ)
      → (look d t request next o).journal ≡ d.journal
  look-journal d t request next none = refl
  look-journal d t request next (some fp) = refl

  begins-note_response :
      (k : ℕ) (d : DaemonState R Blob) (t : ℕ) (request : Request) (response : ResponseEnvelope R)
      (u : Task R) (b : Bool) (route : Route)
      → lookup t d.tasks ≡ some u
      → begins b (
          runs_operation k
            (lookup t (note_response encode decode d t request response route).tasks))
        ≡ 0
  begins-note_response k d t request response u b (journaled fp terminal kind) e =
      let (j, stored) = complete_mutation encode d.journal request.request_id response in
      begins-moved k (record d { journal = j }) t request
        (settling (recorded_as request.request_id response stored)) u b e refl
  begins-note_response k d t request response u b (replayed fp) e =
      begins-moved k d t request (settling response) u b e refl
  begins-note_response k d t request response u b direct e =
      begins-moved k d t request (answered response) u b e refl

  -- What starts no operation and records nothing in the journal conserves both.
  quiet_conserves :
      (k t : ℕ) (d d' : DaemonState R Blob)
      → begins_at k t d d' ≡ 0
      → recorded_mutation k d'.journal ≡ recorded_mutation k d.journal
      → begins_at k t d d' + recorded_mutation k d.journal ≡ recorded_mutation k d'.journal
  quiet_conserves k t d d' h g = omega arith

  advance_conserves :
      (k : ℕ) (d : DaemonState R Blob) (t : ℕ) (request : Request) (phase : Phase R)
      → lookup t d.tasks ≡ some (record { request = request; phase = phase })
      → begins_at k t d (advance encode decode d t request phase) + recorded_mutation k d.journal
        ≡ recorded_mutation k (advance encode decode d t request phase).journal
  advance_conserves k d t request looking e =
      let next = decided request.request_id in
      let o = fingerprint_of request.route in
      quiet_conserves k t d (look d t request next o)
        (begins-look k d t request next _ _ o e (decided_quiet request.request_id) refl)
        (ap (recorded_mutation k) (look-journal d t request next o))
  advance_conserves k d t request enabling e =
      let o = fingerprint_of request.route in
      quiet_conserves k t d (look d t request decided_again o)
        (begins-look k d t request decided_again _ _ o e decided_again_quiet refl)
        (ap (recorded_mutation k) (look-journal d t request decided_again o))
  advance_conserves k d t request parked e = quiet_conserves k t d d (same_begins _) refl
  advance_conserves k d t request granted e = grant_conserves k d t request request.route refl e
  advance_conserves k d t request dispatching e = quiet_conserves k t d d (same_begins _) refl
  advance_conserves k d t request (dispatched response) e =
      quiet_conserves k t d (note_response encode decode d t request response request.route)
        (begins-note_response k d t request response _ _ request.route e)
        (note_response_conserves k d t request response request.route)
  advance_conserves k d t request (settling response) e =
      let o = fingerprint_of request.route in
      quiet_conserves k t d (settle d t request response o)
        (begins-settle k d t request response _ _ o e)
        (ap (recorded_mutation k) (settle-journal d t request response o))
  advance_conserves k d t request (answered response) e =
      quiet_conserves k t d d (same_begins _) refl

  finish-journal :
      (d : DaemonState R Blob) (t : ℕ) (request : Request) (outcome : Outcome R) (phase : Phase R)
      → (finish_phase d t request outcome phase).journal ≡ d.journal
  finish-journal d t request outcome dispatching = refl
  finish-journal d t request outcome _ = refl

  wake-journal :
      (d : DaemonState R Blob) (t : ℕ) (request : Request) (phase : Phase R)
      → (wake_phase d t request phase).journal ≡ d.journal
  wake-journal d t request parked = refl
  wake-journal d t request _ = refl

  drop-journal :
      (d : DaemonState R Blob) (t : ℕ) (request : Request) (phase : Phase R)
      → (drop_phase d t request phase).journal ≡ d.journal
  drop-journal d t request dispatching = settle-journal d t request _ (fingerprint_of request.route)
  drop-journal d t request _ = refl

  start-journal :
      (d : DaemonState R Blob) (t : ℕ) (request : Request) (o : Option (Task R))
      → (start_task d t request o).journal ≡ d.journal
  start-journal d t request none = refl
  start-journal d t request (some task) = refl

  on_task-journal :
      (d : DaemonState R Blob) (o : Option (Task R)) (f : Request → Phase R → DaemonState R Blob)
      → ((request : Request) (phase : Phase R) → (f request phase).journal ≡ d.journal)
      → (on_task d o f).journal ≡ d.journal
  on_task-journal d none f h = refl
  on_task-journal d (some task) f h = h task.request task.phase

  step_conserves :
      (k : ℕ) (d : DaemonState R Blob) (t : ℕ) (o : Option (Task R))
      → lookup t d.tasks ≡ o
      → begins_at k t d (on_task d o (advance encode decode d t)) + recorded_mutation k d.journal
        ≡ recorded_mutation k (on_task d o (advance encode decode d t)).journal
  step_conserves k d t none e = quiet_conserves k t d d (same_begins _) refl
  step_conserves k d t (some task) e = advance_conserves k d t task.request task.phase e

  apply_event_conserves :
      (k : ℕ) (e : Event R) (d : DaemonState R Blob)
      → dispatches encode decode k e d + recorded_mutation k d.journal
        ≡ recorded_mutation k (apply_event encode decode e d).journal
  unfolding apply_event dispatches
  apply_event_conserves k (arrive t request) d =
      let o = lookup t d.tasks in
      quiet_conserves k t d (start_task d t request o) (start_begins k d t request o _ refl)
        (ap (recorded_mutation k) (start-journal d t request o))
  apply_event_conserves k (step t) d = step_conserves k d t (lookup t d.tasks) refl
  apply_event_conserves k (finish t outcome) d =
      let o = lookup t d.tasks in
      let f : Request → Phase R → DaemonState R Blob =
        λ request. finish_phase d t request outcome in
      quiet_conserves k t d (on_task d o f)
        (on_task_begins k d t o f refl
          (λ request phase e. begins-finish_phase k d t request outcome phase _ e refl))
        (ap (recorded_mutation k)
          (on_task-journal d o f (λ request phase. finish-journal d t request outcome phase)))
  apply_event_conserves k (wake t) d =
      let o = lookup t d.tasks in
      let f = wake_phase d t in
      quiet_conserves k t d (on_task d o f)
        (on_task_begins k d t o f refl
          (λ request phase e. begins-wake_phase k d t request phase _ e refl))
        (ap (recorded_mutation k) (on_task-journal d o f (wake-journal d t)))
  apply_event_conserves k (drop t) d =
      let o = lookup t d.tasks in
      let f = drop_phase d t in
      quiet_conserves k t d (on_task d o f)
        (on_task_begins k d t o f refl
          (λ request phase e. begins-drop_phase k d t request phase _ refl))
        (ap (recorded_mutation k) (on_task-journal d o f (drop-journal d t)))
  apply_event_conserves k (restart cache) d = omega arith

  -- Over any interleaving of the tasks of any requests, with cancelled tasks and restarts of the
  -- daemon, the task of a journaled request begins to dispatch its operation exactly as often as
  -- its identifier becomes recorded: once if it was not recorded before and is afterwards, and
  -- otherwise never.
  pub dispatches_recorded :
      (k : ℕ) (es : List (Event R)) (d : DaemonState R Blob)
      → dispatches_of encode decode k es d + recorded_mutation k d.journal
        ≡ recorded_mutation k (run_daemon encode decode es d).journal
  unfolding dispatches_of run_daemon
  dispatches_recorded k [] d = omega arith
  dispatches_recorded k (e ∷ es) d =
      omega (
        arith,
        apply_event_conserves k e d,
        dispatches_recorded k es (apply_event encode decode e d),
      )
