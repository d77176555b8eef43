-- ===== src/Sandboxd/Journal/Tests.antt =====
-- Tests of journal.rs on a terminal with three bytes of output and one input.
use gobrowseos.Prelude.{
  ℕ, ◌+◌, ◌-◌, min, max, ◌≡◌, refl, true, false, some, none, List, [], ◌∷◌, arith, take, drop, ok,
  if◌then◌else◌,
}
use gobrowseos.Sandboxd.Journal.Tables.{
  TerminalState, running, parse_state, InputRow, pending, applied as status_applied, TerminalRow,
  MutationRow, Journal,
}
use gobrowseos.Sandboxd.Journal.Terminals.{starting_row, record_of, query_record, reconcile_restart}
use gobrowseos.Sandboxd.Journal.Output.{read_output}
use gobrowseos.Sandboxd.Journal.Output.Stream.{Holds}
use gobrowseos.Sandboxd.Journal.Output.Delivery.{
  OutputCall, append, acknowledge, run_calls, streamed, run_calls_refines, read_output_refines,
}
use gobrowseos.Sandboxd.Journal.Inputs.{applied, begin_row, complete_row}
use gobrowseos.Sandboxd.Journal.Inputs.Once.{
  InputCall, begin_call, complete_call, unknown_call, restart_call, run_inputs, executions,
  recorded_input, executions_recorded,
}
use gobrowseos.Sandboxd.Journal.Inputs.Settled.{complete_row-replays}
use gobrowseos.Sandboxd.Journal.Mutations.{cached, begin_mutation, complete_mutation}
use gobrowseos.Sandboxd.Journal.Mutations.Cached.{
  MutationCall, begin_call as request_call, complete_call as respond_call, run_mutations,
  executions_of, recorded_mutation, executions_recorded_once, complete_mutation-replays,
}
use gobrowseos.Sandboxd.Journal.Restart.{outlives_restart, reconcile_restart-query_record}

abbrev bytes : List ℕ
bytes = 104 ∷ 105 ∷ 33 ∷ []

abbrev pending_row : InputRow
pending_row = record { fingerprint = 9; status = pending; byte_count = none }

abbrev done_row : InputRow
done_row = record { fingerprint = 9; status = status_applied; byte_count = some 4 }

abbrev row : TerminalRow
row = record {
  workspace_id = 1;
  start_fingerprint = 2;
  state = "RUNNING";
  cols = 80;
  rows = 24;
  exit_code = none;
  reason = none;
  output_start = 0;
  output_end = 3;
  ack_cursor = 0;
  output_bytes = 3;
  output_complete = true;
  chunks = record { start_cursor = 0; end_cursor = 3; bytes = bytes } ∷ [];
  inputs = (6, pending_row) ∷ (7, done_row) ∷ [];
}

row-Holds : Holds row bytes
row-Holds = record {
  total = refl;
  counted = refl;
  limited = omega arith;
  acked = refl;
  acked_within = omega arith;
  base = 0;
  base_acked = omega arith;
  contiguous = (refl, refl, omega arith, omega arith, refl);
  kept = refl;
}

abbrev output_calls : List OutputCall
output_calls = append bytes ∷ acknowledge 2 ∷ append (10 ∷ []) ∷ acknowledge 9 ∷ []

run_calls_refines_example :
    Holds
      (run_calls output_calls (starting_row 1 2 80 24))
      (streamed output_calls (starting_row 1 2 80 24))
run_calls_refines_example = run_calls_refines 1 2 80 24 output_calls

abbrev journal : Journal ℕ
journal = record { terminals = (5, row) ∷ []; mutations = [] }

row-state : parse_state "RUNNING" ≡ ok running
unfolding parse_state
row-state = refl

read_output_refines_example :
    read_output journal 5 1 10
    ≡ ok (record {
      start_cursor = max 1 0;
      next_cursor = max 1 0 + min 10 (3 - max 1 0);
      bytes = take 10 (drop (max 1 0) bytes);
      terminal = record_of 5 row running;
    })
read_output_refines_example =
    read_output_refines journal 5 1 10 row running bytes refl row-state row-Holds (omega arith)

abbrev input_calls : List InputCall
input_calls =
    begin_call 8 1 ∷ restart_call ∷ begin_call 8 1 ∷ complete_call 6 3 ∷ unknown_call 8 ∷ []

executions_recorded_example :
    executions 8 input_calls row + recorded_input 8 row
    ≡ recorded_input 8 (run_inputs input_calls row)
executions_recorded_example = executions_recorded 8 input_calls row

complete_row-replays_example :
    ((complete_row row 6 3).1 ≡ ok tt)
    × ((begin_row (run_inputs input_calls (complete_row row 6 3).0) 6 9).1 ≡ ok (applied 3))
complete_row-replays_example =
    complete_row-replays 6 3 pending_row input_calls row refl refl (omega arith)

abbrev request : MutationRow ℕ
request = record {
  terminal_id = 5;
  kind = "resize";
  fingerprint = 4;
  completed = false;
  response = none;
}

abbrev with_request : Journal ℕ
with_request = record journal { mutations = (3, request) ∷ [] }

abbrev mutation_calls : List (MutationCall ℕ)
mutation_calls = request_call 3 5 "resize" 4 ∷ respond_call 3 21 ∷ request_call 2 5 "start" 1 ∷ []

executions_recorded_once_example :
    executions_of {Blob = ℕ} (λ r. some r) (λ b. some b) 2 mutation_calls with_request
      + recorded_mutation 2 with_request
    ≡ recorded_mutation 2
        (run_mutations {Blob = ℕ} (λ r. some r) (λ b. some b) mutation_calls with_request)
executions_recorded_once_example =
    executions_recorded_once (λ r. some r) (λ b. some b) 2 mutation_calls with_request

complete_mutation-replays_example :
    let j' : Journal ℕ =
      run_mutations
        (λ r. some r)
        (λ b. some b)
        mutation_calls
        (complete_mutation (λ r. some r) with_request 3 20).0 in
    begin_mutation (λ b. some b) j' 3 5 "resize" 4 ≡ (j', ok (cached 20))
complete_mutation-replays_example =
    complete_mutation-replays (λ r. some r) (λ b. some b) 3 20 20 request mutation_calls
      with_request refl refl refl refl

reconcile_restart-query_record_example : query_record (reconcile_restart journal).0 5 ≡ (
    if outlives_restart (parse_state "RUNNING")
    then query_record journal 5
    else ok (
        record_of 5
          (record row { reason = some "daemon_restart_pty_lost"; output_complete = false })
          TerminalState.lost))
reconcile_restart-query_record_example = reconcile_restart-query_record journal 5 row refl
