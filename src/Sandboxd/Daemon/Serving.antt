-- ===== src/Sandboxd/Daemon/Serving.antt =====
-- crates/gobrowse-sandboxd/src/daemon.rs, `handle_line` from an admitted request on: it asks the
-- replay cache, then the journal, runs the operation, and records the response in both. Many tasks
-- serve requests at once. What a task does to the replay cache or to the journal under its lock is
-- one step, so an interleaving is a sequence of steps of tasks. A response is of a type `R` of
-- results; `encode` and `decode` are those of the journal.
use gobrowseos.Prelude.{ℕ, Option, none, some, Assoc, update, Result, ok, err}
use gobrowseos.Sandboxd.Replay.{ReplayCache, ReplayDecision, begin, complete}
use gobrowseos.Sandboxd.Journal.Tables.{JournalError, Journal}
use gobrowseos.Sandboxd.Journal.Mutations.{MutationDecision, begin_mutation, complete_mutation}
use gobrowseos.Sandboxd.Daemon.Errors.{
  DaemonError, ResponseEnvelope, error_response, sandbox_protocol_version,
}
use gobrowseos.Sandboxd.Daemon.Admission.{Request, Route, journaled, replayed, direct}

-- How a dispatch ends: with its result, or because `operation_timeout` has passed.
pub data Outcome (R : Type 0) : Type 0 where
  finished : Result R DaemonError → Outcome R
  timed_out : Outcome R

-- Where a task stands. `looking` is the head of the loop, `enabling` the branch `Wait` before it
-- asks again, `parked` awaits the notification, `granted` holds the guard of an execution,
-- `dispatching` awaits the operation, `dispatched` has its response and `settling` stores it in
-- the replay cache.
pub data Phase (R : Type 0) : Type 0 where
  looking enabling parked granted dispatching : Phase R
  dispatched settling answered : ResponseEnvelope R → Phase R

pub record Task (R : Type 0) : Type 0 where
  pub request : Request
  pub phase : Phase R

pub record DaemonState (R Blob : Type 0) : Type 0 where
  pub replay : ReplayCache (ResponseEnvelope R)
  pub journal : Journal Blob
  pub tasks : Assoc (Task R)

-- Direct requests do without the replay cache.
abbrev pub fingerprint_of : Route → Option ℕ
fingerprint_of (journaled fp terminal kind) = some fp
fingerprint_of (replayed fp) = some fp
fingerprint_of direct = none

module _ {R : Type 0} where
  unfoldable pub response_for : ℕ → Outcome R → ResponseEnvelope R
  response_for request_id (finished (ok result)) = record {
    version = sandbox_protocol_version;
    request_id = request_id;
    result = ok result;
  }
  response_for request_id (finished (err error)) = error_response request_id error
  response_for request_id timed_out = error_response request_id DaemonError.operation_timeout

  -- The answer of the replay cache, at the head of the loop.
  abbrev pub decided : ℕ → ReplayDecision (ResponseEnvelope R) → Phase R
  decided request_id ReplayDecision.execute = granted
  decided request_id (ReplayDecision.cached response) = answered response
  decided request_id ReplayDecision.conflict =
      answered (error_response request_id DaemonError.conflict)
  decided request_id ReplayDecision.full =
      answered (error_response request_id DaemonError.limit_exceeded)
  decided request_id ReplayDecision.wait = enabling

  -- Its answer when it is asked again in the branch `Wait`: the decision is dropped.
  abbrev pub decided_again : ReplayDecision (ResponseEnvelope R) → Phase R
  decided_again ReplayDecision.wait = parked
  decided_again _ = looking

  -- The answer of the journal.
  abbrev pub begun : ℕ → Result (MutationDecision (ResponseEnvelope R)) JournalError → Phase R
  begun request_id (ok (MutationDecision.cached response)) = settling response
  begun request_id (ok MutationDecision.execute) = dispatching
  begun request_id (err JournalError.conflict) =
      settling (error_response request_id DaemonError.conflict)
  begun request_id (err JournalError.outcome_unknown) =
      settling (error_response request_id DaemonError.outcome_unknown)
  begun request_id (err _) = settling (error_response request_id DaemonError.journal)

  abbrev pub recorded_as :
      ℕ → ResponseEnvelope R → Result (Unit {0}) JournalError → ResponseEnvelope R
  recorded_as request_id response (ok _) = response
  recorded_as request_id response (err _) = error_response request_id DaemonError.outcome_unknown

module _ {R Blob : Type 0} where
  -- The task moves on, with what it did to the cache and to the journal.
  abbrev pub moved : DaemonState R Blob → ℕ → Request → Phase R → DaemonState R Blob
  moved d t request phase =
      let task : Task R = record { request = request; phase = phase } in
      record d { tasks = update t task d.tasks }

  abbrev pub look :
      DaemonState R Blob
      → ℕ
      → Request
      → (ReplayDecision (ResponseEnvelope R) → Phase R)
      → Option ℕ
      → DaemonState R Blob
  look d t request next none = moved d t request dispatching
  look d t request next (some fp) =
      let (cache, decision) = begin d.replay request.request_id fp in
      moved (record d { replay = cache }) t request (next decision)

  abbrev pub settle :
      DaemonState R Blob → ℕ → Request → ResponseEnvelope R → Option ℕ → DaemonState R Blob
  settle d t request response none = moved d t request (answered response)
  settle d t request response (some fp) =
      moved (record d { replay = (complete d.replay request.request_id fp response).0 }) t request
        (answered response)

  module _ (encode : ResponseEnvelope R → Option Blob)
      (decode : Blob → Option (ResponseEnvelope R)) where
    abbrev pub grant : DaemonState R Blob → ℕ → Request → Route → DaemonState R Blob
    grant d t request (journaled fp terminal kind) =
        let (j, decision) = begin_mutation decode d.journal request.request_id terminal kind fp in
        moved (record d { journal = j }) t request (begun request.request_id decision)
    grant d t request (replayed fp) = moved d t request dispatching
    grant d t request direct = moved d t request dispatching

    abbrev pub note_response :
        DaemonState R Blob → ℕ → Request → ResponseEnvelope R → Route → DaemonState R Blob
    note_response d t request response (journaled fp terminal kind) =
        let (j, stored) = complete_mutation encode d.journal request.request_id response in
        moved (record d { journal = j }) t request
          (settling (recorded_as request.request_id response stored))
    note_response d t request response (replayed fp) = moved d t request (settling response)
    note_response d t request response direct = moved d t request (answered response)

    -- The step of a task that does not wait for anything.
    abbrev pub advance : DaemonState R Blob → ℕ → Request → Phase R → DaemonState R Blob
    advance d t request looking =
        look d t request (decided request.request_id) (fingerprint_of request.route)
    advance d t request enabling = look d t request decided_again (fingerprint_of request.route)
    advance d t request parked = d
    advance d t request granted = grant d t request request.route
    advance d t request dispatching = d
    advance d t request (dispatched response) = note_response d t request response request.route
    advance d t request (settling response) =
        settle d t request response (fingerprint_of request.route)
    advance d t request (answered response) = d
