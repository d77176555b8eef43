-- ===== src/Sandboxd/Daemon/Progress.antt =====
-- crates/gobrowse-sandboxd/src/daemon.rs: how a request comes to its answer.
pub mod Lost
use gobrowseos.Prelude.{
  ℕ, ◌≤◌, ◌≡◌, ◌≢◌, refl, Bool, true, false, Option, none, some, List, [], ◌∷◌, arith, lookup,
  update, ◌==◌, if◌then◌else◌, lookup-update, ok, err, Result, min, ◌-◌,
}
use gobrowseos.Sandboxd.Replay.{ReplayDecision, begin, complete}
use gobrowseos.Sandboxd.Journal.Tables.{JournalError}
use gobrowseos.Sandboxd.Journal.Mutations.{MutationDecision, begin_mutation, complete_mutation}
use gobrowseos.Sandboxd.Daemon.Errors.{DaemonError, ResponseEnvelope, error_response}
use gobrowseos.Sandboxd.Daemon.Admission.{Request, Route, journaled, replayed, direct}
use gobrowseos.Sandboxd.Daemon.Serving.{
  Outcome, Phase, looking, enabling, parked, granted, dispatching, dispatched, settling, answered,
  Task, DaemonState, response_for, fingerprint_of, moved, look, settle, grant, note_response,
  advance, begun, recorded_as, decided, decided_again,
}
use gobrowseos.Sandboxd.Daemon.Steps.{
  Event, step, finish, finish_phase, apply_event, run_daemon, on_task,
}

-- How many events a task is from its answer, if its operation ends and it never waits.
abbrev pub distance : {R : Type 0} → Phase R → ℕ
distance (answered a) = 0
distance (settling a) = 1
distance (dispatched a) = 2
distance dispatching = 3
distance granted = 4
distance looking = 5
distance enabling = 6
distance parked = 6

module _ {R : Type 0} where
  abbrev pub is_wait : ReplayDecision R → Bool
  is_wait ReplayDecision.wait = true
  is_wait _ = false

module _ {R : Type 0} where
  begun_near :
      (id : ℕ) (answer : Result (MutationDecision (ResponseEnvelope R)) JournalError)
      → distance (begun id answer) ≤ 3
  begun_near id (ok (MutationDecision.cached a)) = omega arith
  begun_near id (ok MutationDecision.execute) = omega arith
  begun_near id (err JournalError.conflict) = omega arith
  begun_near id (err JournalError.outcome_unknown) = omega arith
  begun_near id (err JournalError.sqlite) = omega arith
  begun_near id (err JournalError.corrupt) = omega arith
  begun_near id (err JournalError.not_found) = omega arith

  decided_near :
      (id : ℕ) (decision : ReplayDecision (ResponseEnvelope R))
      → is_wait decision ≡ false
      → distance (decided id decision) ≤ 4
  decided_near id ReplayDecision.execute h = omega arith
  decided_near id (ReplayDecision.cached a) h = omega arith
  decided_near id ReplayDecision.conflict h = omega arith
  decided_near id ReplayDecision.full h = omega arith
  decided_near id ReplayDecision.wait h = absurd cc

module _ {R Blob : Type 0} where
  -- The task stands there with the request.
  abbrev pub Stands : DaemonState R Blob → ℕ → Request → Phase R → Type 0
  Stands d t q p = lookup t d.tasks ≡ some (record { request = q; phase = p })

  pub moved-Stands :
      (d : DaemonState R Blob) (t : ℕ) (q : Request) (p p' : Phase R)
      → Stands d t q p
      → Stands (moved d t q p') t q p'
  moved-Stands d t q p p' h =
      ground (arith, lookup-update t t (record { request = q; phase = p' }) d.tasks)

  -- The replay cache holds an execution of the request that has not ended.
  abbrev pub must_wait : DaemonState R Blob → Request → Option ℕ → Bool
  must_wait d q none = false
  must_wait d q (some fp) = is_wait (begin d.replay q.request_id fp).1

  -- The task stands somewhere no further than that from its answer.
  Near : DaemonState R Blob → ℕ → Request → ℕ → Type 0
  Near d t q n = (p : Phase R) × Stands d t q p × (distance p ≤ n)

  moved-Near :
      (d : DaemonState R Blob) (t : ℕ) (q : Request) (p p' : Phase R) (n : ℕ)
      → Stands d t q p
      → distance p' ≤ n
      → Near (moved d t q p') t q n
  unfolding Near
  moved-Near d t q p p' n h near = (p', moved-Stands d t q p p' h, near)

  settle-Near :
      (d : DaemonState R Blob) (t : ℕ) (q : Request) (p : Phase R) (a : ResponseEnvelope R)
      (o : Option ℕ)
      → Stands d t q p
      → Near (settle d t q a o) t q 0
  settle-Near d t q p a none h = moved-Near d t q p (answered a) 0 h (omega arith)
  settle-Near d t q p a (some fp) h =
      moved-Near (record d { replay = (complete d.replay q.request_id fp a).0 }) t q p (answered a)
        0 h (omega arith)

  module _ (encode : ResponseEnvelope R → Option Blob)
      (decode : Blob → Option (ResponseEnvelope R)) where
    grant-Near :
        (d : DaemonState R Blob) (t : ℕ) (q : Request) (p : Phase R) (route : Route)
        → Stands d t q p
        → Near (grant encode decode d t q route) t q 3
    grant-Near d t q p (journaled fp terminal kind) h =
        let answer = begin_mutation decode d.journal q.request_id terminal kind fp in
        moved-Near (record d { journal = answer.0 }) t q p (begun q.request_id answer.1) 3 h
          (begun_near q.request_id answer.1)
    grant-Near d t q p (replayed fp) h = moved-Near d t q p dispatching 3 h (omega arith)
    grant-Near d t q p direct h = moved-Near d t q p dispatching 3 h (omega arith)

    note_response-Near :
        (d : DaemonState R Blob) (t : ℕ) (q : Request) (p : Phase R) (a : ResponseEnvelope R)
        (route : Route)
        → Stands d t q p
        → Near (note_response encode decode d t q a route) t q 1
    note_response-Near d t q p a (journaled fp terminal kind) h =
        let stored = complete_mutation encode d.journal q.request_id a in
        moved-Near (record d { journal = stored.0 }) t q p
          (settling (recorded_as q.request_id a stored.1)) 1 h (omega arith)
    note_response-Near d t q p a (replayed fp) h = moved-Near d t q p (settling a) 1 h (omega arith)
    note_response-Near d t q p a direct h = moved-Near d t q p (answered a) 1 h (omega arith)

    -- What a step of the task leaves: only the operation itself is waited for.
    advance-Near :
        (d : DaemonState R Blob) (t : ℕ) (q : Request) (p : Phase R)
        → Stands d t q p
        → distance p ≤ 4
        → Near
            (advance encode decode d t q p)
            t
            q
            (min 3 (distance p - (if distance p == 3 then 0 else 1)))
    unfolding Near
    advance-Near d t q looking h near = absurd (omega arith)
    advance-Near d t q enabling h near = absurd (omega arith)
    advance-Near d t q parked h near = absurd (omega arith)
    advance-Near d t q granted h near = grant-Near d t q granted q.route h
    advance-Near d t q dispatching h near = (dispatching, h, omega arith)
    advance-Near d t q (dispatched a) h near = note_response-Near d t q (dispatched a) a q.route h
    advance-Near d t q (settling a) h near =
        settle-Near d t q (settling a) a (fingerprint_of q.route) h
    advance-Near d t q (answered a) h near = (answered a, h, omega arith)

    step-Near :
        (d : DaemonState R Blob) (t : ℕ) (q : Request) (n : ℕ)
        → Near d t q n
        → n ≤ 4
        → Near (apply_event encode decode (step t) d) t q (min 3 (if n == 3 then 3 else n - 1))
    unfolding Near apply_event
    step-Near d t q n (p, h, near) bound =
        let (p', h', near') = advance-Near d t q p h (omega arith) in rw h (p', h', ground arith)

    finish-Near :
        (d : DaemonState R Blob) (t : ℕ) (q : Request) (outcome : Outcome R) (p : Phase R)
        → Stands d t q p
        → distance p ≤ 3
        → Near (finish_phase d t q outcome p) t q 2
    unfolding Near
    finish-Near d t q outcome dispatching h near =
        moved-Near d t q dispatching (dispatched (response_for q.request_id outcome)) 2 h
          (omega arith)
    finish-Near d t q outcome looking h near = absurd (omega arith)
    finish-Near d t q outcome enabling h near = absurd (omega arith)
    finish-Near d t q outcome parked h near = absurd (omega arith)
    finish-Near d t q outcome granted h near = absurd (omega arith)
    finish-Near d t q outcome (dispatched a) h near = (dispatched a, h, omega arith)
    finish-Near d t q outcome (settling a) h near = (settling a, h, omega arith)
    finish-Near d t q outcome (answered a) h near = (answered a, h, omega arith)

    look-Near :
        (d : DaemonState R Blob) (t : ℕ) (q : Request) (o : Option ℕ)
        → Stands d t q looking
        → must_wait d q o ≡ false
        → Near (look d t q (decided q.request_id) o) t q 4
    look-Near d t q none h ready = moved-Near d t q looking dispatching 4 h (omega arith)
    look-Near d t q (some fp) h ready =
        let answer = begin d.replay q.request_id fp in
        moved-Near (record d { replay = answer.0 }) t q looking (decided q.request_id answer.1) 4 h
          (decided_near q.request_id answer.1 ready)

    looking-Near :
        (d : DaemonState R Blob) (t : ℕ) (q : Request)
        → Stands d t q looking
        → must_wait d q (fingerprint_of q.route) ≡ false
        → Near (apply_event encode decode (step t) d) t q 4
    unfolding apply_event
    looking-Near d t q h ready = rw h (look-Near d t q (fingerprint_of q.route) h ready)

    finished-Near :
        (d : DaemonState R Blob) (t : ℕ) (q : Request) (outcome : Outcome R)
        → Near d t q 3
        → Near (apply_event encode decode (finish t outcome) d) t q 2
    unfolding Near apply_event
    finished-Near d t q outcome (p, h, near) = rw h (finish-Near d t q outcome p h near)

    zero-answered :
        (d : DaemonState R Blob) (t : ℕ) (q : Request)
        → Near d t q 0
        → (a : ResponseEnvelope R) × (lookup t d.tasks
            ≡ some (record { request = q; phase = answered a }))
    unfolding Near
    zero-answered d t q (answered a, h, near) = (a, h)
    zero-answered d t q (settling a, h, near) = absurd (omega arith)
    zero-answered d t q (dispatched a, h, near) = absurd (omega arith)
    zero-answered d t q (dispatching, h, near) = absurd (omega arith)
    zero-answered d t q (granted, h, near) = absurd (omega arith)
    zero-answered d t q (looking, h, near) = absurd (omega arith)
    zero-answered d t q (enabling, h, near) = absurd (omega arith)
    zero-answered d t q (parked, h, near) = absurd (omega arith)

    -- A request that the replay cache does not make wait is answered after two steps, the end of
    -- its operation and two more steps, whatever the replay cache and the journal answer and
    -- however the operation ends.
    pub request_answered :
        (d : DaemonState R Blob) (t : ℕ) (q : Request) (outcome : Outcome R)
        → lookup t d.tasks ≡ some (record { request = q; phase = looking })
        → must_wait d q (fingerprint_of q.route) ≡ false
        → (a : ResponseEnvelope R) × (lookup t
              (run_daemon encode decode
                (step t ∷ step t ∷ finish t outcome ∷ step t ∷ step t ∷ [])
                d).tasks
            ≡ some (record { request = q; phase = answered a }))
    unfolding run_daemon
    request_answered d t q outcome h ready =
        let run = apply_event encode decode in
        let d1 = run (step t) d in
        let d2 = run (step t) d1 in
        let d3 = run (finish t outcome) d2 in
        let d4 = run (step t) d3 in
        zero-answered (run (step t) d4) t q (
          step-Near d4 t q 1
            (step-Near d3 t q 2
              (finished-Near d2 t q outcome
                (step-Near d1 t q 4 (looking-Near d t q h ready) (omega arith)))
              (omega arith))
            (omega arith))
