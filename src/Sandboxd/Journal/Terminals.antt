-- ===== src/Sandboxd/Journal/Terminals.antt =====
-- journal.rs: starting a terminal, its state and its size, and what a restart of the daemon does.
use Prim.Native.String.{String}
use text.Mathlib.Text.{◌==◌ as str_eq}
use gobrowseos.Prelude.{
  ℕ, Bool, true, false, not, ◌&&◌, ◌||◌, Option, none, some, List, [], ◌∷◌, map, leb, ◌==◌,
  if◌then◌else◌, Assoc, lookup, insert, update, ℤ, Result, ok, err, ◌>>=◌,
}
use gobrowseos.Sandboxd.Journal.Tables.{
  JournalError, sqlite, conflict, not_found, TerminalState, state_name, parse_state, InputStatus,
  InputRow, pending, applied, unknown, TerminalRow, Journal,
}

pub data StartDecision : Type 0 where
  execute existing : StartDecision

pub record TerminalRecord : Type 0 where
  pub terminal_id : ℕ
  pub workspace_id : ℕ
  pub state : TerminalState
  pub cols : ℕ
  pub rows : ℕ
  pub exit_code : Option ℤ
  pub reason : Option String
  pub output_start_cursor : ℕ
  pub output_end_cursor : ℕ
  pub acked_cursor : ℕ
  pub output_complete : Bool

-- The row that `begin_start` inserts, with the columns' defaults.
abbrev pub starting_row : ℕ → ℕ → ℕ → ℕ → TerminalRow
starting_row workspace fp cols rows = record {
  workspace_id = workspace;
  start_fingerprint = fp;
  state = "STARTING";
  cols = cols;
  rows = rows;
  exit_code = none;
  reason = none;
  output_start = 0;
  output_end = 0;
  ack_cursor = 0;
  output_bytes = 0;
  output_complete = true;
  chunks = [];
  inputs = [];
}

-- The CHECK on a terminal's size.
abbrev pub valid_size : ℕ → ℕ → Bool
valid_size cols rows = (leb 1 cols && leb cols 65535) && (leb 1 rows && leb rows 65535)

-- `state IN ('STARTING', 'RUNNING')`.
abbrev pub is_starting_or_running : String → Bool
is_starting_or_running s = str_eq s "STARTING" || str_eq s "RUNNING"

-- `COALESCE(?5, output_complete)`.
abbrev pub coalesce : Option Bool → Bool → Bool
coalesce none b = b
coalesce (some c) b = c

-- The row as it is handed out: every column but the state is in range by the CHECKs.
abbrev pub record_of : ℕ → TerminalRow → TerminalState → TerminalRecord
record_of id t state = record {
  terminal_id = id;
  workspace_id = t.workspace_id;
  state = state;
  cols = t.cols;
  rows = t.rows;
  exit_code = t.exit_code;
  reason = t.reason;
  output_start_cursor = t.output_start;
  output_end_cursor = t.output_end;
  acked_cursor = t.ack_cursor;
  output_complete = t.output_complete;
}

-- `state IN ('STARTING', 'RUNNING', 'TERMINATING', 'UNRECOVERABLE')`.
abbrev pub is_live : String → Bool
is_live s = is_starting_or_running s || (str_eq s "TERMINATING" || str_eq s "UNRECOVERABLE")

-- A pending input's outcome is not known after a restart.
abbrev pub forget_status : InputRow → InputStatus → InputRow
forget_status i pending = record i { status = unknown }
forget_status i applied = i
forget_status i unknown = i

abbrev pub forget_outcome : InputRow → InputRow
forget_outcome i = forget_status i i.status

abbrev pub forget_all : Assoc InputRow → Assoc InputRow
forget_all m = map (λ (k, i). (k, forget_outcome i)) m

abbrev pub lose : TerminalRow → TerminalRow
lose t =
    if is_live t.state
    then record t {
      state = "LOST";
      reason = some "daemon_restart_pty_lost";
      output_complete = false;
    }
    else t

-- The two updates of a restart, on one terminal and its inputs.
unfoldable pub restart_row : TerminalRow → TerminalRow
restart_row t = let u = lose t in record u { inputs = forget_all u.inputs }

unfoldable pub restart_rows : Assoc TerminalRow → Assoc TerminalRow
restart_rows m = map (λ (id, t). (id, restart_row t)) m

unfoldable pub live_ids : Assoc TerminalRow → List ℕ
live_ids [] = []
live_ids ((id, t) ∷ m) = let rest = live_ids m in if is_live t.state then id ∷ rest else rest

abbrev pub query_row : ℕ → Option TerminalRow → Result TerminalRecord JournalError
query_row id none = err not_found
query_row id (some t) = do state ← parse_state t.state; ok (record_of id t state)

module _ {Blob : Type 0} where
  unfoldable pub begin_start :
      Journal Blob → ℕ → ℕ → ℕ → ℕ → ℕ → Journal Blob × Result StartDecision JournalError
  begin_start j id workspace fp cols rows = elim (lookup id j.terminals) [
    | some t ↦
        if not (t.workspace_id == workspace) || not (t.start_fingerprint == fp)
        then (j, err conflict)
        else (j, ok existing)
    | none ↦
        if valid_size cols rows
        then (
          record j { terminals = insert id (starting_row workspace fp cols rows) j.terminals },
          ok execute,
        )
        else (j, err sqlite)
  ]

  unfoldable pub set_running : Journal Blob → ℕ → Journal Blob × Result (Unit {0}) JournalError
  set_running j id = elim (lookup id j.terminals) [
    | none ↦ (j, err not_found)
    | some t ↦
        if is_starting_or_running t.state
        then (
          record j { terminals = update id (record t { state = "RUNNING" }) j.terminals },
          ok tt,
        )
        else (j, ok tt)
  ]

  unfoldable pub set_state :
      Journal Blob
      → ℕ
      → TerminalState
      → Option ℤ
      → Option String
      → Option Bool
      → Journal Blob × Result (Unit {0}) JournalError
  unfolding state_name
  set_state j id state exit_code reason complete = elim (lookup id j.terminals) [
    | none ↦ (j, err not_found)
    | some t ↦ (
      record j {
        terminals =
            update id
              (record t {
                state = state_name state;
                exit_code = exit_code;
                reason = reason;
                output_complete = coalesce complete t.output_complete;
              })
              j.terminals;
      },
      ok tt,
    )
  ]

  unfoldable pub set_size : Journal Blob → ℕ → ℕ → ℕ → Journal Blob × Result (Unit {0}) JournalError
  set_size j id cols rows = elim (lookup id j.terminals) [
    | none ↦ (j, err not_found)
    | some t ↦
        if valid_size cols rows
        then (
          record j { terminals = update id (record t { cols = cols; rows = rows }) j.terminals },
          ok tt,
        )
        else (j, err sqlite)
  ]

  unfoldable pub query_record : Journal Blob → ℕ → Result TerminalRecord JournalError
  query_record j id = query_row id (lookup id j.terminals)

  abbrev pub inspect : Journal Blob → ℕ → Result TerminalRecord JournalError
  inspect = query_record

  unfoldable pub reconcile_restart : Journal Blob → Journal Blob × List ℕ
  unfolding restart_rows live_ids
  reconcile_restart j = (record j { terminals = restart_rows j.terminals }, live_ids j.terminals)
