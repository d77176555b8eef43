-- ===== src/Sandboxd/Daemon/Tests.antt =====
-- Tests of the daemon of daemon.rs. A response is its own encoding, and a digest is a length.
use gobrowseos.Prelude.{
  ℕ, ◌≡◌, ◌⊎◌, refl, true, false, Option, none, some, List, [], ◌∷◌, lookup, ok, err, ◌+◌,
}
use gobrowseos.Sandboxd.Replay.{ReplayCache, ReplayDecision, begin, begin_fresh, complete}
use gobrowseos.Sandboxd.Journal.Tables.{MutationRow}
use gobrowseos.Sandboxd.Journal.Mutations.{begin_mutation, complete_mutation}
use gobrowseos.Sandboxd.Journal.Mutations.Cached.{recorded_mutation}
use gobrowseos.Sandboxd.Daemon.Errors.{DaemonError, ResponseEnvelope, error_response, describe}
use gobrowseos.Sandboxd.Daemon.Operations.{SandboxOperation}
use gobrowseos.Sandboxd.Daemon.Admission.{Request, journaled}
use gobrowseos.Sandboxd.Daemon.Serving.{
  finished, timed_out, looking, enabling, parked, answered, Task, DaemonState, fingerprint_of,
  response_for,
}
use gobrowseos.Sandboxd.Daemon.Steps.{
  Event, arrive, step, finish, wake, restart, run_daemon, apply_event, dispatches, dispatches_of,
}
use gobrowseos.Sandboxd.Daemon.Once.{dispatches_recorded}
use gobrowseos.Sandboxd.Daemon.Durable.{all_permitted}
use gobrowseos.Sandboxd.Daemon.Durable.Answers.{durable_answer}
use gobrowseos.Sandboxd.Daemon.Progress.{request_answered, must_wait}
use gobrowseos.Sandboxd.Daemon.Progress.Lost.{lost_execution}

abbrev Response : Type 0
Response = ResponseEnvelope ℕ

abbrev keep : Response → Option Response
keep r = some r

abbrev empty_cache : ReplayCache Response
empty_cache = record { capacity = 1; entries = []; order = [] }

abbrev empty_daemon : DaemonState ℕ Response
empty_daemon = record {
  replay = empty_cache;
  journal = record { terminals = []; mutations = [] };
  tasks = [];
}

abbrev interrupt_request : Request
interrupt_request = record {
  request_id = 7;
  route = journaled 11 3 "interrupt";
  operation = SandboxOperation.interrupt 3;
}

-- The request is served, comes again, and comes again after a restart.
abbrev events : List (Event ℕ)
events =
    arrive 1 interrupt_request
    ∷ step 1
    ∷ arrive 2 interrupt_request
    ∷ step 2
    ∷ step 1
    ∷ step 2
    ∷ finish 1 (finished (ok 5))
    ∷ step 1
    ∷ step 1
    ∷ wake 2
    ∷ step 2
    ∷ restart empty_cache
    ∷ arrive 3 interrupt_request
    ∷ step 3
    ∷ step 3
    ∷ step 3
    ∷ []

abbrev answer_of : Option (Task ℕ) → Option ℕ
answer_of none = none
answer_of (some task) = elim task.phase [
  | answered a ↦ elim a.result [ ok r ↦ some r | err e ↦ none ]
  | _ ↦ none
]

third_answer : answer_of (lookup 3 (run_daemon keep keep events empty_daemon).tasks) ≡ some 5
unfolding run_daemon apply_event dispatches dispatches_of begin begin_fresh complete begin_mutation
    complete_mutation response_for error_response describe
third_answer = refl

one_dispatch : dispatches_of keep keep 7 events empty_daemon ≡ 1
unfolding run_daemon apply_event dispatches dispatches_of begin begin_fresh complete begin_mutation
    complete_mutation response_for error_response describe
one_dispatch = refl

dispatches_recorded_example :
    dispatches_of keep keep 7 events empty_daemon + recorded_mutation 7 empty_daemon.journal
    ≡ recorded_mutation 7 (run_daemon keep keep events empty_daemon).journal
dispatches_recorded_example = dispatches_recorded keep keep 7 events empty_daemon

abbrev answer : Response
answer = record { version = 2; request_id = 7; result = ok 5 }

abbrev row : MutationRow Response
row = record {
  terminal_id = 3;
  kind = "interrupt";
  fingerprint = 11;
  completed = true;
  response = some answer;
}

-- A daemon that is started with the journal of another.
abbrev restarted : DaemonState ℕ Response
restarted = record {
  replay = empty_cache;
  journal = record { terminals = []; mutations = (7, row) ∷ [] };
  tasks = [];
}

abbrev retries : List (Event ℕ)
retries = arrive 1 interrupt_request ∷ step 1 ∷ step 1 ∷ step 1 ∷ []

abbrev answered_task : Task ℕ
answered_task = record { request = interrupt_request; phase = answered answer }

retried : lookup 1 (run_daemon keep keep retries restarted).tasks ≡ some answered_task
unfolding run_daemon apply_event begin begin_fresh complete begin_mutation complete_mutation
    response_for error_response describe
retried = refl

permitted : all_permitted 7 row retries ≡ true
unfolding all_permitted
permitted = refl

durable_answer_example :
    (answer ≡ answer)
    ⊎ (answer ≡ error_response 7 DaemonError.conflict)
    ⊎ (answer ≡ error_response 7 DaemonError.limit_exceeded)
durable_answer_example =
    durable_answer keep keep 7 row answer answer refl refl refl retries restarted 1 answered_task
      answer refl refl refl permitted retried refl refl

abbrev waiting_to_start : DaemonState ℕ Response
waiting_to_start = record empty_daemon {
  tasks = (1, record { request = interrupt_request; phase = looking }) ∷ [];
}

free_to_start :
    must_wait waiting_to_start interrupt_request (fingerprint_of interrupt_request.route) ≡ false
unfolding begin begin_fresh
free_to_start = refl

request_answered_example :
    (a : Response) × (lookup 1
        (run_daemon keep keep
          (step 1 ∷ step 1 ∷ finish 1 timed_out ∷ step 1 ∷ step 1 ∷ [])
          waiting_to_start).tasks
      ≡ some (record { request = interrupt_request; phase = answered a }))
request_answered_example =
    request_answered keep keep waiting_to_start 1 interrupt_request timed_out refl free_to_start

-- The entry that the task found has been completed and evicted when it asks again.
abbrev asks_again : DaemonState ℕ Response
asks_again = record empty_daemon {
  tasks = (1, record { request = interrupt_request; phase = enabling }) ∷ [];
}

granted_again : (begin asks_again.replay 7 11).1 ≡ ReplayDecision.execute
unfolding begin begin_fresh
granted_again = refl

lost_execution_example :
    let after = run_daemon keep keep (step 1 ∷ step 1 ∷ step 1 ∷ []) asks_again in
    (lookup 1 after.tasks ≡ some (record { request = interrupt_request; phase = parked }))
    × (begin after.replay 7 11 ≡ (after.replay, ReplayDecision.wait))
lost_execution_example =
    lost_execution keep keep asks_again 1 interrupt_request 11 refl refl granted_again
