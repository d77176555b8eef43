-- ===== src/Sandboxd/Journal/Tables.antt =====
-- journal.rs: the tables of the terminal journal and its error type. A `Uuid` is the number of its 128 bits, a
-- fingerprint that of its 256 bits. `created_at` and `updated_at` are written and never read, and
-- are left out; I/O faults of SQLite and a poisoned lock are not modelled.
use Prim.Native.String.{String}
use text.Mathlib.Text.{◌==◌}
use gobrowseos.Prelude.{ℕ, Bool, Option, List, Assoc, ℤ, Result, ok, err, if◌then◌else◌, ◌||◌}

-- `Sqlite` also stands for a violated constraint and for a row that is not there.
pub data JournalError : Type 0 where
  sqlite corrupt conflict not_found outcome_unknown : JournalError

pub data TerminalState : Type 0 where
  running terminating unrecoverable lost exited terminated : TerminalState

unfoldable pub state_name : TerminalState → String
state_name running = "RUNNING"
state_name terminating = "TERMINATING"
state_name unrecoverable = "UNRECOVERABLE"
state_name lost = "LOST"
state_name exited = "EXITED"
state_name terminated = "TERMINATED"

unfoldable pub parse_state : String → Result TerminalState JournalError
parse_state s =
    if s == "STARTING" || s == "RUNNING"
    then ok running
    else if s == "TERMINATING"
    then ok terminating
    else if s == "UNRECOVERABLE"
    then ok unrecoverable
    else if s == "LOST"
    then ok lost
    else if s == "EXITED"
    then ok exited
    else if s == "TERMINATED"
    then ok terminated
    else err corrupt

-- A row of `output_chunks`, without its terminal.
pub record Chunk : Type 0 where
  pub start_cursor : ℕ
  pub end_cursor : ℕ
  pub bytes : List ℕ

-- The `status` of a row of `terminal_inputs`.
pub data InputStatus : Type 0 where
  pending applied unknown : InputStatus

pub record InputRow : Type 0 where
  pub fingerprint : ℕ
  pub status : InputStatus
  pub byte_count : Option ℕ

-- A row of `terminals`, with the rows of the two tables that refer to it: its chunks in the order
-- of their cursors, and its inputs by identifier.
pub record TerminalRow : Type 0 where
  pub workspace_id : ℕ
  pub start_fingerprint : ℕ
  pub state : String
  pub cols : ℕ
  pub rows : ℕ
  pub exit_code : Option ℤ
  pub reason : Option String
  pub output_start : ℕ
  pub output_end : ℕ
  pub ack_cursor : ℕ
  pub output_bytes : ℕ
  pub output_complete : Bool
  pub chunks : List Chunk
  pub inputs : Assoc InputRow

-- A row of `protocol_mutations`; `response` is there once it is complete.
pub record MutationRow (Blob : Type 0) : Type 0 where
  pub terminal_id : ℕ
  pub kind : String
  pub fingerprint : ℕ
  pub completed : Bool
  pub response : Option Blob

pub record Journal (Blob : Type 0) : Type 0 where
  pub terminals : Assoc TerminalRow
  pub mutations : Assoc (MutationRow Blob)

abbrev pub max_terminal_output_bytes : ℕ
max_terminal_output_bytes = 67108864

abbrev pub max_terminal_output_chunk_bytes : ℕ
max_terminal_output_chunk_bytes = 32768
