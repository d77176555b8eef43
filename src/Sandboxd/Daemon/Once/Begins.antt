-- ===== src/Sandboxd/Daemon/Once/Begins.antt =====
-- crates/gobrowse-sandboxd/src/daemon.rs: which steps start the operation of a journaled request.
use gobrowseos.Prelude.{
  ℕ, ◌==◌, ◌≡◌, ◌&&◌, refl, Bool, true, false, Option, none, some, arith, if◌then◌else◌, Result, ok,
  err, Assoc, lookup, insert, update, remove, lookup-update, lookup-insert, lookup-remove,
}
use gobrowseos.Sandboxd.Replay.{ReplayDecision, begin, complete}
use gobrowseos.Sandboxd.Journal.Tables.{JournalError}
use gobrowseos.Sandboxd.Journal.Mutations.{MutationDecision}
use gobrowseos.Sandboxd.Journal.Mutations.Cached.{is_execute}
use gobrowseos.Sandboxd.Daemon.Errors.{ResponseEnvelope}
use gobrowseos.Sandboxd.Daemon.Admission.{Request, Route, journaled, replayed, direct}
use gobrowseos.Sandboxd.Daemon.Serving.{
  Outcome, Phase, looking, parked, dispatching, dispatched, answered, Task, DaemonState,
  fingerprint_of, look, settle, decided, decided_again, begun, moved, response_for,
}
use gobrowseos.Sandboxd.Daemon.Steps.{
  start_task, finish_phase, wake_phase, drop_phase, is_journaled, begins, is_dispatching,
  runs_operation, begins_at, on_task,
}

pub same_begins : (b : Bool) → begins b b ≡ 0
same_begins true = refl
same_begins false = refl

pub begins-false : (b : Bool) → begins b false ≡ 0
begins-false true = refl
begins-false false = refl

pub unprinted : (route : Route) → fingerprint_of route ≡ none → is_journaled route ≡ false
unprinted (journaled fp terminal kind) h = absurd cc
unprinted (replayed fp) h = refl
unprinted direct h = refl

module _ {R : Type 0} where
  pub decided_quiet :
      (id : ℕ) (decision : ReplayDecision (ResponseEnvelope R))
      → is_dispatching (decided id decision) ≡ false
  decided_quiet id ReplayDecision.execute = refl
  decided_quiet id (ReplayDecision.cached response) = refl
  decided_quiet id ReplayDecision.conflict = refl
  decided_quiet id ReplayDecision.full = refl
  decided_quiet id ReplayDecision.wait = refl

  pub decided_again_quiet :
      (decision : ReplayDecision (ResponseEnvelope R))
      → is_dispatching (decided_again decision) ≡ false
  decided_again_quiet ReplayDecision.wait = refl
  decided_again_quiet ReplayDecision.execute = refl
  decided_again_quiet (ReplayDecision.cached response) = refl
  decided_again_quiet ReplayDecision.conflict = refl
  decided_again_quiet ReplayDecision.full = refl

  -- An answer of the journal starts the operation exactly if it is to execute it.
  pub begins-begun :
      (id k : ℕ) (answer : Result (MutationDecision (ResponseEnvelope R)) JournalError)
      → begins (id == k && false) (id == k && is_dispatching (begun id answer))
        ≡ (if id == k then is_execute answer else 0)
  begins-begun id k (ok (MutationDecision.cached response)) = ground arith
  begins-begun id k (ok MutationDecision.execute) = ground arith
  begins-begun id k (err JournalError.conflict) = ground arith
  begins-begun id k (err JournalError.outcome_unknown) = ground arith
  begins-begun id k (err JournalError.sqlite) = ground arith
  begins-begun id k (err JournalError.corrupt) = ground arith
  begins-begun id k (err JournalError.not_found) = ground arith

  pub removed_begins :
      (k t : ℕ) (tasks : Assoc (Task R)) (b : Bool)
      → begins b (runs_operation k (lookup t (remove t tasks))) ≡ 0
  removed_begins k t tasks b =
      let gone : lookup t (remove t tasks) ≡ none = ground (arith, lookup-remove t t tasks) in
      rw gone (begins-false b)

module _ {R Blob : Type 0} where
  -- A task that is there and moves on runs its operation if it then dispatches.
  pub moved-runs_operation :
      (k : ℕ) (d : DaemonState R Blob) (t : ℕ) (request : Request) (phase : Phase R) (u : Task R)
      → lookup t d.tasks ≡ some u
      → runs_operation k (lookup t (moved d t request phase).tasks)
        ≡ runs_operation k (some (record { request = request; phase = phase }))
  moved-runs_operation k d t request phase u e =
      let task : Task R = record { request = request; phase = phase } in
      let found : lookup t (update t task d.tasks) ≡ some task =
        ground (arith, lookup-update t t task d.tasks) in
      rw found refl

  pub begins-moved :
      (k : ℕ) (d : DaemonState R Blob) (t : ℕ) (request : Request) (phase : Phase R) (u : Task R)
      (b : Bool)
      → lookup t d.tasks ≡ some u
      → is_dispatching phase ≡ false
      → begins b (runs_operation k (lookup t (moved d t request phase).tasks)) ≡ 0
  begins-moved k d t request phase u b e quiet =
      rw (moved-runs_operation k d t request phase u e) (rw quiet (ground arith))

  pub direct_begins :
      (k : ℕ) (d : DaemonState R Blob) (t : ℕ) (request : Request) (phase : Phase R) (u : Task R)
      (b : Bool)
      → lookup t d.tasks ≡ some u
      → is_journaled request.route ≡ false
      → begins b (runs_operation k (lookup t (moved d t request phase).tasks)) ≡ 0
  direct_begins k d t request phase u b e other =
      rw (moved-runs_operation k d t request phase u e) (rw other (begins-false b))

  -- Asking the replay cache starts no journaled operation.
  pub begins-look :
      (k : ℕ) (d : DaemonState R Blob) (t : ℕ) (request : Request)
      (next : ReplayDecision (ResponseEnvelope R) → Phase R) (u : Task R) (b : Bool) (o : Option ℕ)
      → lookup t d.tasks ≡ some u
      → ((decision : ReplayDecision (ResponseEnvelope R)) → is_dispatching (next decision) ≡ false)
      → fingerprint_of request.route ≡ o
      → begins b (runs_operation k (lookup t (look d t request next o).tasks)) ≡ 0
  begins-look k d t request next u b none e quiet f =
      direct_begins k d t request dispatching u b e (unprinted request.route f)
  begins-look k d t request next u b (some fp) e quiet f =
      let (cache, decision) = begin d.replay request.request_id fp in
      begins-moved k (record d { replay = cache }) t request (next decision) u b e (quiet decision)

  pub begins-settle :
      (k : ℕ) (d : DaemonState R Blob) (t : ℕ) (request : Request) (response : ResponseEnvelope R)
      (u : Task R) (b : Bool) (o : Option ℕ)
      → lookup t d.tasks ≡ some u
      → begins b (runs_operation k (lookup t (settle d t request response o).tasks)) ≡ 0
  begins-settle k d t request response u b none e =
      begins-moved k d t request (answered response) u b e refl
  begins-settle k d t request response u b (some fp) e =
      begins-moved k (record d { replay = (complete d.replay request.request_id fp response).0 }) t
        request (answered response) u b e refl

  pub begins-finish_phase :
      (k : ℕ) (d : DaemonState R Blob) (t : ℕ) (request : Request) (outcome : Outcome R)
      (phase : Phase R) (b : Bool)
      → lookup t d.tasks ≡ some (record { request = request; phase = phase })
      → runs_operation k (lookup t d.tasks) ≡ b
      → begins b (runs_operation k (lookup t (finish_phase d t request outcome phase).tasks)) ≡ 0
  begins-finish_phase k d t request outcome dispatching b e h =
      begins-moved k d t request (dispatched (response_for request.request_id outcome)) _ b e refl
  begins-finish_phase k d t request outcome _ b e h = rw h (same_begins b)

  pub begins-wake_phase :
      (k : ℕ) (d : DaemonState R Blob) (t : ℕ) (request : Request) (phase : Phase R) (b : Bool)
      → lookup t d.tasks ≡ some (record { request = request; phase = phase })
      → runs_operation k (lookup t d.tasks) ≡ b
      → begins b (runs_operation k (lookup t (wake_phase d t request phase).tasks)) ≡ 0
  begins-wake_phase k d t request parked b e h = begins-moved k d t request looking _ b e refl
  begins-wake_phase k d t request _ b e h = rw h (same_begins b)

  pub begins-drop_phase :
      (k : ℕ) (d : DaemonState R Blob) (t : ℕ) (request : Request) (phase : Phase R) (b : Bool)
      → runs_operation k (lookup t d.tasks) ≡ b
      → begins b (runs_operation k (lookup t (drop_phase d t request phase).tasks)) ≡ 0
  begins-drop_phase k d t request dispatching b h = removed_begins k t _ b
  begins-drop_phase k d t request parked b h = removed_begins k t d.tasks b
  begins-drop_phase k d t request _ b h = rw h (same_begins b)

  pub start_begins :
      (k : ℕ) (d : DaemonState R Blob) (t : ℕ) (request : Request) (o : Option (Task R)) (b : Bool)
      → runs_operation k (lookup t d.tasks) ≡ b
      → begins b (runs_operation k (lookup t (start_task d t request o).tasks)) ≡ 0
  start_begins k d t request none b h =
      let task : Task R = record { request = request; phase = looking } in
      let found : lookup t (insert t task d.tasks) ≡ some task =
        ground (arith, lookup-insert t t task d.tasks) in
      rw found (ground arith)
  start_begins k d t request (some task) b h = rw h (same_begins b)

  pub on_task_begins :
      (k : ℕ) (d : DaemonState R Blob) (t : ℕ) (o : Option (Task R))
      (f : Request → Phase R → DaemonState R Blob)
      → lookup t d.tasks ≡ o
      → ((request : Request) (phase : Phase R)
          → lookup t d.tasks ≡ some (record { request = request; phase = phase })
          → begins_at k t d (f request phase) ≡ 0)
      → begins_at k t d (on_task d o f) ≡ 0
  on_task_begins k d t none f e h = same_begins (runs_operation k (lookup t d.tasks))
  on_task_begins k d t (some task) f e h = h task.request task.phase e
